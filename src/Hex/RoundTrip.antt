-- ===== src/Hex/RoundTrip.antt =====
-- Hex digits are read back to the bytes that they were made from.
use pivy.Prelude.{
  ℕ, zero, suc, ◌+◌, ◌-◌, ◌*◌, ◌/◌, ◌^◌, ◌<◌, ◌≡◌, refl, ap, ◌∙◌, List, [], ◌∷◌, ◌++◌, append_assoc,
  Bool, true, false, length, take, All, replicate, low_bits, shr, IsByte, arith,
}
use pivy.Outcome.{ok}
use pivy.Hex.{HexOut, HexIn, c_string, nybble_to_hex, buf_to_hex, parse_hex}
use pivy.Hex.Write.{separator, digits, length-digits, written, buf_to_hex_lem}
use pivy.Hex.Read.{whole, parse_digits}

c_string_step : (c : ℕ) (cs : List ℕ) → 0 < c → c_string (c ∷ cs) ≡ c ∷ c_string cs
unfolding c_string
c_string_step zero cs h = absurd (omega arith)
c_string_step (suc c) cs h = refl

nybble_to_hex_positive : (v : ℕ) → 0 < nybble_to_hex v
unfolding nybble_to_hex
nybble_to_hex_positive v = ground arith

c_string-separator :
    (spaces : Bool) (bs cs : List ℕ)
    → c_string (separator spaces bs ++ cs) ≡ separator spaces bs ++ c_string cs
c_string-separator true [] cs = refl
c_string-separator true (b ∷ bs) cs = c_string_step 32 cs (omega arith)
c_string-separator false bs cs = refl

c_string_end : (cs : List ℕ) → c_string (0 ∷ cs) ≡ []
unfolding c_string
c_string_end cs = refl

c_string-digits :
    (spaces : Bool) (bs cs : List ℕ) → c_string (digits spaces bs ++ (0 ∷ cs)) ≡ digits spaces bs
c_string-digits spaces [] cs = c_string_end cs
c_string-digits spaces (b ∷ bs) cs =
    let high = low_bits (shr b 4) 4 in
    let low = low_bits b 4 in
    let parts = append_assoc (separator spaces bs) (digits spaces bs) (0 ∷ cs) in
    c_string_step (nybble_to_hex high) _ (nybble_to_hex_positive high)
    ∙ ap (λ l. nybble_to_hex high ∷ l)
        (c_string_step (nybble_to_hex low) _ (nybble_to_hex_positive low)
          ∙ ap (λ l. nybble_to_hex low ∷ l)
              (ap c_string parts
                ∙ c_string-separator spaces bs (digits spaces bs ++ (0 ∷ cs))
                ∙ ap (λ l. separator spaces bs ++ l) (c_string-digits spaces bs cs)))

take-append : (xs ys : List ℕ) → take (length xs) (xs ++ ys) ≡ xs
take-append [] ys = refl
take-append (x ∷ xs) ys = ap (λ l. x ∷ l) (take-append xs ys)

-- Bytes that `buf_to_hex` writes as digits, with spaces or without, `parse_hex` reads back, if the
-- memory for the digits has a size that a `size_t` holds; both return.
pub parse_hex-buf_to_hex :
    (bs : List ℕ) (spaces : Bool)
    → All IsByte bs
    → length bs * 3 + 1 < 2 ^ 64
    → (text : HexOut) × (s : HexIn) × (buf_to_hex bs spaces ≡ ok tt text)
      × (parse_hex (c_string text.out) ≡ ok tt s)
      × (take s.idx s.data_ ≡ bs)
parse_hex-buf_to_hex bs spaces h small =
    let (k, written_text) = buf_to_hex_lem bs spaces small in
    let (low, high) = length-digits spaces bs in
    let m = length (digits spaces bs) / 2 + 1 - length bs in
    let room : length (digits spaces bs) / 2 + 1 ≡ length bs + m = omega (arith, low) in
    (
      written (digits spaces bs) (suc k),
      whole bs m,
      written_text,
      ap parse_hex (c_string-digits spaces bs (replicate k 0)) ∙ parse_digits spaces bs m h room,
      take-append bs (replicate m 0),
    )

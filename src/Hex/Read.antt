-- ===== src/Hex/Read.antt =====
-- How `parse_hex` reads the digits of bytes.
use pivy.Prelude.{
  ℕ, zero, suc, ◌+◌, ◌*◌, ◌/◌, ◌%◌, ◌^◌, ◌<◌, ◌≡◌, refl, sym, ◌∙◌, List, [], ◌∷◌, ◌++◌,
  append_assoc, append-nil, Bool, true, false, some, length, length-append, get_elem?,
  get_elem?-append, set, set-append, All, ◌==◌, replicate, low_bits, shr, IsByte, arith,
}
use native.Mathlib.Numerals.{unary_clauses}
use pivy.Outcome.{ok, ◌>>=◌, ◌>>◌, pure, fail_if, get, bind-ok}
use pivy.Hex.Bounds.{or_in-some}
use pivy.Hex.{
  HexIn, nybble_to_hex, or_bits, shl, or_in, is_blank, parse_char, next_half, parse_loop, parse_hex,
  hexerrf,
}
use pivy.Hex.Write.{separator, digits}

-- `|` of bits that do not meet.
or_bits-double : (w a b : ℕ) → or_bits (suc w) (2 * a) b ≡ b % 2 + 2 * or_bits w a (b / 2)
unfolding or_bits
or_bits-double w a b =
    let even : 2 * a % 2 ≡ 0 = omega arith in
    let half : 2 * a / 2 ≡ a = omega arith in rw (even, half) (ground arith)

pow_suc : (w : ℕ) → 2 ^ suc w ≡ 2 * 2 ^ w
pow_suc w = simp unary_clauses (omega arith)

or_bits-zero : (w a : ℕ) → a < 2 ^ w → or_bits w a 0 ≡ a
unfolding or_bits
or_bits-zero zero a h = omega arith
or_bits-zero (suc w) a h =
    let e = or_bits-zero w (a / 2) (omega (arith, h, pow_suc w)) in rw e (ground arith)

zero-or_bits : (w b : ℕ) → b < 2 ^ w → or_bits w 0 b ≡ b
unfolding or_bits
zero-or_bits zero b h = omega arith
zero-or_bits (suc w) b h =
    let e = zero-or_bits w (b / 2) (omega (arith, h, pow_suc w)) in rw e (ground arith)

-- A low half is put below a high one.
or_bits-halves : (h l : ℕ) → h < 16 → l < 16 → or_bits 8 (h * 16) l ≡ h * 16 + l
or_bits-halves h l high low =
    let e1 : h * 16 ≡ 2 * (2 * (2 * (2 * h))) = omega arith in
    let e5 : l / 2 / 2 / 2 / 2 ≡ 0 = omega arith in
    rw e1 (
      or_bits-double 7 (2 * (2 * (2 * h))) l
      ∙ rw
          (
            or_bits-double 6 (2 * (2 * h)) (l / 2),
            or_bits-double 5 (2 * h) (l / 2 / 2),
            or_bits-double 4 h (l / 2 / 2 / 2),
            e5,
            or_bits-zero 4 h high,
          )
          (omega arith))

digit_char :
    (v : ℕ) (s : HexIn) → v < 16 → parse_char (nybble_to_hex v) s ≡ (or_in v >> pure false) s
unfolding parse_char nybble_to_hex
digit_char v s h = ground arith

digit_step :
    (v old : ℕ) (cs : List ℕ) (s : HexIn)
    → v < 16
    → get_elem? s.data_ s.idx ≡ some old
    → parse_loop (nybble_to_hex v ∷ cs) s
      ≡ (next_half false >> parse_loop cs)
          (record s { data_ = set s.data_ s.idx (or_bits 8 old (shl v s.shift)) })
unfolding parse_loop
digit_step v old cs s h e =
    bind-ok (parse_char (nybble_to_hex v)) _ s false _
      (digit_char v s h ∙ bind-ok (or_in v) _ s tt _ (or_in-some v old s e))

-- The bytes `done`, and room for `k` more; the second has the high half of one of them.
abbrev pub whole : List ℕ → ℕ → HexIn
whole done k = record { data_ = done ++ replicate k 0; idx = length done; shift = 4 }

abbrev half : List ℕ → ℕ → ℕ → HexIn
half done h k = record { data_ = done ++ ((h * 16) ∷ replicate k 0); idx = length done; shift = 0 }

high_step :
    (h k : ℕ) (done cs : List ℕ)
    → h < 16
    → parse_loop (nybble_to_hex h ∷ cs) (whole done (suc k)) ≡ parse_loop cs (half done h k)
unfolding next_half shl
high_step h k done cs small =
    digit_step h 0 cs (whole done (suc k)) small (get_elem?-append done (replicate k 0) 0)
    ∙ rw
        (
          set-append done (replicate k 0) 0 (or_bits 8 0 (h * 16)),
          zero-or_bits 8 (h * 16) (omega (arith, small)),
        )
        refl

low_step :
    (h l k : ℕ) (done cs : List ℕ)
    → h < 16
    → l < 16
    → parse_loop (nybble_to_hex l ∷ cs) (half done h k)
      ≡ parse_loop cs (whole (done ++ ((h * 16 + l) ∷ [])) k)
unfolding next_half shl
low_step h l k done cs high low =
    let all : (done ++ ((h * 16 + l) ∷ [])) ++ replicate k 0
        ≡ done ++ ((h * 16 + l) ∷ replicate k 0) =
      append_assoc done ((h * 16 + l) ∷ []) (replicate k 0) in
    let next : length (done ++ ((h * 16 + l) ∷ [])) ≡ length done + 1 =
      length-append done ((h * 16 + l) ∷ []) in
    digit_step l (h * 16) cs (half done h k) low (get_elem?-append done (replicate k 0) (h * 16))
    ∙ rw
        (
          set-append done (replicate k 0) (h * 16) (or_bits 8 (h * 16) l),
          or_bits-halves h l high low,
          all,
          next,
        )
        refl

blank_step : (cs : List ℕ) (s : HexIn) → parse_loop (32 ∷ cs) s ≡ parse_loop cs s
unfolding parse_loop parse_char next_half is_blank
blank_step cs s = refl

separator_step :
    (spaces : Bool) (bs cs : List ℕ) (s : HexIn)
    → parse_loop (separator spaces bs ++ cs) s ≡ parse_loop cs s
separator_step true [] cs s = refl
separator_step true (b ∷ bs) cs s = blank_step cs s
separator_step false bs cs s = refl

parse_end :
    (done : List ℕ) (k : ℕ) → parse_loop [] (whole done (0 + k)) ≡ ok tt (whole (done ++ []) k)
unfolding parse_loop
parse_end done k = let e : 0 + k ≡ k = omega arith in rw (e, append-nil done) refl

digits_loop :
    (spaces : Bool) (bs done : List ℕ) (k : ℕ)
    → All IsByte bs
    → parse_loop (digits spaces bs) (whole done (length bs + k)) ≡ ok tt (whole (done ++ bs) k)
digits_loop spaces [] done k h = parse_end done k
digits_loop spaces (b ∷ bs) done k (h, hs) =
    let high = low_bits (shr b 4) 4 in
    let low = low_bits b 4 in
    let room : suc (length bs) + k ≡ suc (length bs + k) = omega arith in
    let byte : high * 16 + low ≡ b = omega (arith, h) in
    let all : (done ++ (b ∷ [])) ++ bs ≡ done ++ (b ∷ bs) = append_assoc done (b ∷ []) bs in
    let rest = separator spaces bs ++ digits spaces bs in
    rw (room, sym all)
      (high_step high (length bs + k) done (nybble_to_hex low ∷ rest) (omega arith)
        ∙ low_step high low (length bs + k) done rest (omega arith) (omega arith)
        ∙ separator_step spaces bs (digits spaces bs) _
        ∙ rw byte (digits_loop spaces bs (done ++ (b ∷ [])) k hs))

pub parse_digits :
    (spaces : Bool) (bs : List ℕ) (k : ℕ)
    → All IsByte bs
    → length (digits spaces bs) / 2 + 1 ≡ length bs + k
    → parse_hex (digits spaces bs) ≡ ok tt (whole bs k)
unfolding parse_hex
parse_digits spaces bs k h room = rw room (
    bind-ok (parse_loop (digits spaces bs)) (λ u. get >>= λ s. fail_if (s.shift == 0) hexerrf)
      (whole [] (length bs + k)) tt (whole bs k) (digits_loop spaces bs [] k h))

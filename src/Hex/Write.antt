-- ===== src/Hex/Write.antt =====
-- The text that `buf_to_hex` writes.
use pivy.Prelude.{
  ℕ, suc, ◌+◌, ◌-◌, ◌*◌, ◌^◌, ◌≤◌, ◌<◌, ◌≡◌, refl, sym, ◌∙◌, List, [], ◌∷◌, ◌++◌, append_assoc,
  append-nil, Bool, true, false, ◌&&◌, length, length-append, set-append, ltb, replicate,
  if◌then◌else◌, low_bits, shr, arith,
}
use pivy.Outcome.{Outcome, M, ok, ◌>>◌, pure, bind-ok}
use pivy.Hex.{HexOut, nybble_to_hex, store_char, put_char, hex_loop, buf_to_hex}

abbrev pub separator : Bool → List ℕ → List ℕ
separator true (b ∷ bs) = 32 ∷ []
separator true [] = []
separator false bs = []

-- Two digits for each byte, with a space between two bytes if it is asked for.
abbrev pub digits : Bool → List ℕ → List ℕ
digits spaces [] = []
digits spaces (b ∷ bs) =
    nybble_to_hex (low_bits (shr b 4) 4)
    ∷ (nybble_to_hex (low_bits b 4) ∷ (separator spaces bs ++ digits spaces bs))

pub length-digits :
    (spaces : Bool) (bs : List ℕ)
    → (2 * length bs ≤ length (digits spaces bs)) × (length (digits spaces bs) ≤ 3 * length bs)
length-digits spaces [] = ground arith
length-digits true (b ∷ []) = ground arith
length-digits true (b ∷ (c ∷ bs)) =
    let (low, high) = length-digits true (c ∷ bs) in (omega (arith, low), omega (arith, high))
length-digits false (b ∷ bs) =
    let (low, high) = length-digits false bs in (omega (arith, low), omega (arith, high))

-- The characters `done`, and room for `k` more.
abbrev pub written : List ℕ → ℕ → HexOut
written done k = record { out = done ++ replicate k 0; j = length done }

store_char_lem :
    (c : ℕ) (done : List ℕ) (k : ℕ)
    → store_char c (written done (suc k))
      ≡ ok tt (record { out = done ++ (c ∷ replicate k 0); j = length done })
unfolding store_char
store_char_lem c done k =
    let more = length-append done (0 ∷ replicate k 0) in
    let room : ltb (length done) (length (done ++ (0 ∷ replicate k 0))) ≡ true =
      ground (arith, more) in
    rw (room, set-append done (replicate k 0) 0 c) refl

put_char_lem :
    (c : ℕ) (done : List ℕ) (k : ℕ)
    → put_char c (written done (suc k)) ≡ ok tt (written (done ++ (c ∷ [])) k)
unfolding put_char
put_char_lem c done k =
    let all : (done ++ (c ∷ [])) ++ replicate k 0 ≡ done ++ (c ∷ replicate k 0) =
      append_assoc done (c ∷ []) (replicate k 0) in
    let next : length (done ++ (c ∷ [])) ≡ length done + 1 = length-append done (c ∷ []) in
    bind-ok (store_char c) _ (written done (suc k)) tt _ (store_char_lem c done k)
    ∙ rw (all, next) refl

ends :
    (done : List ℕ) (k : ℕ)
    → Path
        (Outcome HexOut (Unit {0}))
        (ok tt (written done (0 + k)))
        (ok tt (written (done ++ []) k))
ends done k = let e : 0 + k ≡ k = omega arith in rw (e, append-nil done) refl

separator_lem :
    (spaces : Bool) (i len : ℕ) (bs done : List ℕ) (k : ℕ)
    → i + suc (length bs) ≡ len
    → (if spaces && ltb (i + 1) len then put_char 32 else pure tt)
        (written done (length (separator spaces bs) + k))
      ≡ ok tt (written (done ++ separator spaces bs) k)
separator_lem false i len bs done k h = ends done k
separator_lem true i len [] done k h =
    let last : ltb (i + 1) len ≡ false = ground arith in rw last (ends done k)
separator_lem true i len (b ∷ bs) done k h =
    let more : ltb (i + 1) len ≡ true = ground arith in
    let room : 1 + k ≡ suc k = omega arith in rw (more, room) (put_char_lem 32 done k)

-- The two digits of a byte, and what is put `between` it and the next one.
byte_step :
    (high low : ℕ) (wanted : Bool) (between : List ℕ) (next : M HexOut (Unit {0})) (done : List ℕ)
    (k : ℕ)
    → (if wanted then put_char 32 else pure tt)
        (written ((done ++ (high ∷ [])) ++ (low ∷ [])) (length between + k))
      ≡ ok tt (written (((done ++ (high ∷ [])) ++ (low ∷ [])) ++ between) k)
    → (put_char high >> (put_char low >> ((if wanted then put_char 32 else pure tt) >> next)))
        (written done (suc (suc (length between + k))))
      ≡ next (written (((done ++ (high ∷ [])) ++ (low ∷ [])) ++ between) k)
byte_step high low wanted between next done k h =
    let n = length between + k in
    let separate = if wanted then put_char 32 else pure tt in
    bind-ok (put_char high) (λ u. put_char low >> (separate >> next)) (written done (suc (suc n)))
      tt (written (done ++ (high ∷ [])) (suc n)) (put_char_lem high done (suc n))
    ∙ bind-ok (put_char low) (λ u. separate >> next) (written (done ++ (high ∷ [])) (suc n)) tt
        (written ((done ++ (high ∷ [])) ++ (low ∷ [])) n) (put_char_lem low (done ++ (high ∷ [])) n)
    ∙ bind-ok separate (λ u. next) (written ((done ++ (high ∷ [])) ++ (low ∷ [])) n) tt
        (written (((done ++ (high ∷ [])) ++ (low ∷ [])) ++ between) k) h

hex_loop_lem :
    (spaces : Bool) (i len : ℕ) (bs done : List ℕ) (k : ℕ)
    → i + length bs ≡ len
    → hex_loop spaces len i bs (written done (length (digits spaces bs) + k))
      ≡ ok tt (written (done ++ digits spaces bs) k)
unfolding hex_loop
hex_loop_lem spaces i len [] done k h = ends done k
hex_loop_lem spaces i len (b ∷ bs) done k h =
    let high = nybble_to_hex (low_bits (shr b 4) 4) in
    let low = nybble_to_hex (low_bits b 4) in
    let between = separator spaces bs in
    let after = digits spaces bs in
    let size = length-append between after in
    let room : suc (suc (length (between ++ after))) + k
        ≡ suc (suc (length between + (length after + k))) =
      omega (arith, size) in
    let begun = (done ++ (high ∷ [])) ++ (low ∷ []) in
    let whole_text : (begun ++ between) ++ after ≡ done ++ (high ∷ (low ∷ (between ++ after))) =
      append_assoc begun between after
      ∙ append_assoc (done ++ (high ∷ [])) (low ∷ []) (between ++ after)
      ∙ append_assoc done (high ∷ []) (low ∷ (between ++ after)) in
    rw (room, sym whole_text)
      (byte_step high low (spaces && ltb (i + 1) len) between (hex_loop spaces len (i + 1) bs) done
          (length after + k) (separator_lem spaces i len bs begun (length after + k) h)
        ∙ hex_loop_lem spaces (i + 1) len bs (begun ++ between) k (omega (arith, h)))

-- The text that it leaves: the digits, a NUL, and zeros up to the end of the memory.
pub buf_to_hex_lem :
    (bs : List ℕ) (spaces : Bool)
    → length bs * 3 + 1 < 2 ^ 64
    → (k : ℕ) × (buf_to_hex bs spaces ≡ ok tt (written (digits spaces bs) (suc k)))
unfolding buf_to_hex
buf_to_hex_lem bs spaces small =
    let (low, high) = length-digits spaces bs in
    let k = length bs * 3 - length (digits spaces bs) in
    let room : low_bits (length bs * 3 + 1) 64 ≡ length (digits spaces bs) + suc k =
      omega (arith, high, small) in
    (
      k,
      rw room (
          bind-ok (hex_loop spaces (length bs) 0 bs) _ _ tt _
            (hex_loop_lem spaces 0 (length bs) bs [] (suc k) (omega arith))
          ∙ store_char_lem 0 (digits spaces bs) k),
    )

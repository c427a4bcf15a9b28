-- ===== src/Hex/Bounds.antt =====
-- Reading hex digits stays inside the memory for the bytes.
use pivy.Prelude.{
  ℕ, suc, ◌+◌, ◌-◌, ◌*◌, ◌/◌, ◌≤◌, ◌<◌, ◌≡◌, refl, sym, subst, ◌∙◌, ◌⊎◌, inl, inr, List, [], ◌∷◌,
  Bool, true, false, ◌&&◌, Bool-cases, some, length, length-set, set, length-replicate, get_elem?,
  get_elem?-is_some, leb, ◌==◌, arith,
}
use pivy.Outcome.{Outcome, M, ok, err, ◌>>=◌, ◌>>◌, pure, fail_if, get, bind-ok, bind-err}
use pivy.Hex.{
  HexIn, or_bits, shl, or_in, is_blank, parse_char, next_half, parse_loop, parse_hex, hexerrf,
}

-- `n` characters are read, into `m` bytes: two for each byte before `idx`, and one more if half of
-- the next byte is there.
abbrev pub Filled : ℕ → ℕ → HexIn → Type 0
Filled m n s =
    (length s.data_ ≡ m)
    × (((s.shift ≡ 4) × (2 * s.idx ≤ n)) ⊎ ((s.shift ≡ 0) × (2 * s.idx + 1 ≤ n)))

-- It returns with a state that keeps `P`, or with the error of a character that is no digit.
abbrev pub Parses : {A : Type 0} → (HexIn → Type 0) → Outcome HexIn A → Type 0
Parses {A} P o = ((a : A) × (s : HexIn) × (o ≡ ok a s) × P s) ⊎ ((s : HexIn) × (o ≡ err hexerrf s))

Parses-bind :
    {A B : Type 0} (P Q : HexIn → Type 0) (m : M HexIn A) (f : A → M HexIn B) (s : HexIn)
    → Parses P (m s)
    → ((a : A) (s' : HexIn) → P s' → Parses Q (f a s'))
    → Parses Q ((m >>= f) s)
Parses-bind P Q m f s (inl (a, s', e, p)) k = elim (k a s' p) [
  | inl (b, t, h, q) ↦ inl (b, t, bind-ok m f s a s' e ∙ h, q)
  | inr (t, h) ↦ inr (t, bind-ok m f s a s' e ∙ h)
]
Parses-bind P Q m f s (inr (s', e)) k = inr (s', bind-err m f s hexerrf s' e)

pub or_in-some :
    (v old : ℕ) (s : HexIn)
    → get_elem? s.data_ s.idx ≡ some old
    → or_in v s ≡ ok tt (record s { data_ = set s.data_ s.idx (or_bits 8 old (shl v s.shift)) })
unfolding or_in
or_in-some v old s e = rw (e, or_in) refl

or_in-Filled : (m n v : ℕ) (s : HexIn) → n < 2 * m → Filled m n s → Parses (Filled m n) (or_in v s)
or_in-Filled m n v s room (size, place) =
    let inside : s.idx < length s.data_ = elim place [
      | inl (e, h) ↦ omega (arith, size, h, room)
      | inr (e, h) ↦ omega (arith, size, h, room)
    ] in
    let (old, e) = get_elem?-is_some s.data_ s.idx inside in
    inl (
      tt,
      record s { data_ = set s.data_ s.idx (or_bits 8 old (shl v s.shift)) },
      or_in-some v old s e,
      (length-set s.data_ s.idx _ ∙ size, place),
    )

digit-Filled :
    (m n v : ℕ) (s : HexIn)
    → n < 2 * m
    → Filled m n s
    → Parses (Filled m n) ((or_in v >> pure false) s)
digit-Filled m n v s room h =
    Parses-bind (Filled m n) (Filled m n) (or_in v) _ s (or_in-Filled m n v s room h)
      (λ u s' h'. inl (false, s', refl, h'))

parse_char-Filled :
    (m n c : ℕ) (s : HexIn) → n < 2 * m → Filled m n s → Parses (Filled m n) (parse_char c s)
unfolding parse_char
parse_char-Filled m n c s room h = elim (Bool-cases (leb 48 c && leb c 57)) [
  | inl digit ↦ rw digit (digit-Filled m n (c - 48) s room h)
  | inr e1 ↦ rw e1 (elim (Bool-cases (leb 97 c && leb c 102)) [
    | inl small ↦ rw small (digit-Filled m n (c - 97 + 0xa) s room h)
    | inr e2 ↦ rw e2 (elim (Bool-cases (leb 65 c && leb c 70)) [
      | inl large ↦ rw large (digit-Filled m n (c - 65 + 0xA) s room h)
      | inr e3 ↦ rw e3 (elim (Bool-cases (is_blank c)) [
        | inl blank ↦ rw blank (inl (true, s, refl, h))
        | inr other ↦ rw other (inr (s, refl))
      ])
    ])
  ])
]

next_half-Filled :
    (m n : ℕ) (skip : Bool) (s : HexIn)
    → Filled m n s
    → Parses (Filled m (suc n)) (next_half skip s)
unfolding next_half
next_half-Filled m n true s (size, inl (e, h)) =
    inl (tt, s, refl, (size, inl (e, omega (arith, h))))
next_half-Filled m n true s (size, inr (e, h)) =
    inl (tt, s, refl, (size, inr (e, omega (arith, h))))
next_half-Filled m n false s (size, inl (e, h)) =
    inl (tt, record s { shift = 0 }, rw e refl, (size, inr (refl, omega (arith, h))))
next_half-Filled m n false s (size, inr (e, h)) =
    inl
      (tt, record s { idx = s.idx + 1; shift = 4 }, rw e refl, (size, inl (refl, omega (arith, h))))

parse_loop-Filled :
    (m n : ℕ) (cs : List ℕ) (s : HexIn)
    → n + length cs < 2 * m
    → Filled m n s
    → Parses (Filled m (n + length cs)) (parse_loop cs s)
unfolding parse_loop
parse_loop-Filled m n [] s room h =
    inl (tt, s, refl, subst (λ k. Filled m k s) (let e : n ≡ n + 0 = omega arith in e) h)
parse_loop-Filled m n (c ∷ cs) s room h =
    let fewer : n < 2 * m = omega arith in
    let rest : n + suc (length cs) ≡ suc n + length cs = omega arith in
    Parses-bind (Filled m n) _ (parse_char c) _ s (parse_char-Filled m n c s fewer h) (λ skip s1 h1.
      Parses-bind (Filled m (suc n)) _ (next_half skip) _ s1 (next_half-Filled m n skip s1 h1)
        (λ u s2 h2.
          subst (λ k. Parses (Filled m k) (parse_loop cs s2)) (sym rest)
            (parse_loop-Filled m (suc n) cs s2 (omega (arith, rest, room)) h2)))

whole_bytes :
    (m n : ℕ) (s : HexIn)
    → Filled m n s
    → Parses
        (λ s. (length s.data_ ≡ m) × (2 * s.idx ≤ n))
        ((get >>= λ s. fail_if (s.shift == 0) hexerrf) s)
whole_bytes m n s (size, inl (e, h)) = inl (tt, s, rw e refl, (size, h))
whole_bytes m n s (size, inr (e, h)) = inr (s, rw e refl)

-- `parse_hex` of any characters returns or gives its error, and writes nothing outside of the
-- memory it has for the bytes; when it returns, `*outlen` is at most half the number of characters.
pub parse_hex-Parses :
    (str : List ℕ)
    → Parses (λ s. (length s.data_ ≡ length str / 2 + 1) × (2 * s.idx ≤ length str)) (parse_hex str)
unfolding parse_hex
parse_hex-Parses str =
    Parses-bind (Filled (length str / 2 + 1) (0 + length str)) _ (parse_loop str) _ _
      (parse_loop-Filled (length str / 2 + 1) 0 str _ (omega arith)
        (length-replicate (length str / 2 + 1) 0, inl (refl, omega arith)))
      (λ u s h. whole_bytes (length str / 2 + 1) (length str) s (
        subst (λ k. Filled (length str / 2 + 1) k s)
          (let e : 0 + length str ≡ length str = omega arith in e) h))

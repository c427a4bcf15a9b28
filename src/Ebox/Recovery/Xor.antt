-- ===== src/Ebox/Recovery/Xor.antt =====
-- The exclusive or of bytes is its own inverse.
use pivy.Prelude.{
  ℕ, zero, suc, ◌+◌, ◌*◌, ◌/◌, ◌%◌, ◌<◌, ◌^◌, ◌≡◌, refl, sym, ap, ◌∙◌, List, [], ◌∷◌, All, IsByte,
  length, arith,
}
use native.Mathlib.Numerals.{unary_clauses}
use pivy.Ebox.State.{xor_bits, xor_bytes}

pow_suc : (w : ℕ) → 2 ^ suc w ≡ 2 * 2 ^ w
pow_suc w = simp unary_clauses (omega arith)

xor_bits_twice : (w a b : ℕ) → a < 2 ^ w → xor_bits w (xor_bits w a b) b ≡ a
unfolding xor_bits
xor_bits_twice zero a b h = omega arith
xor_bits_twice (suc w) a b h =
    let rest = xor_bits w (a / 2) (b / 2) in
    let low : ((a % 2 + b % 2) % 2 + 2 * rest) % 2 ≡ (a % 2 + b % 2) % 2 = omega arith in
    let high : ((a % 2 + b % 2) % 2 + 2 * rest) / 2 ≡ rest = omega arith in
    let back = xor_bits_twice w (a / 2) (b / 2) (omega (arith, h, pow_suc w)) in
    rw (low, high, back) (omega arith)

-- Bytes that are masked by as many others, and unmasked by the same.
xor_bytes_twice :
    (as' bs : List ℕ)
    → All IsByte as'
    → length as' ≡ length bs
    → xor_bytes (xor_bytes as' bs) bs ≡ as'
unfolding xor_bytes
xor_bytes_twice [] bs h e = refl
xor_bytes_twice (a ∷ as') [] h e = absurd (omega arith)
xor_bytes_twice (a ∷ as') (b ∷ bs) (h, hs) e =
    ap (λ x. x ∷ xor_bytes (xor_bytes as' bs) bs) (xor_bits_twice 8 a b h)
    ∙ ap (λ l. a ∷ l) (xor_bytes_twice as' bs hs (omega arith))

xor_bits_comm : (w a b : ℕ) → xor_bits w a b ≡ xor_bits w b a
unfolding xor_bits
xor_bits_comm zero a b = refl
xor_bits_comm (suc w) a b = omega (arith, xor_bits_comm w (a / 2) (b / 2))

xor_bytes_comm : (as' bs : List ℕ) → length as' ≡ length bs → xor_bytes as' bs ≡ xor_bytes bs as'
unfolding xor_bytes
xor_bytes_comm [] [] e = refl
xor_bytes_comm [] (b ∷ bs) e = refl
xor_bytes_comm (a ∷ as') [] e = refl
xor_bytes_comm (a ∷ as') (b ∷ bs) e =
    ap (λ x. x ∷ xor_bytes as' bs) (xor_bits_comm 8 a b)
    ∙ ap (λ l. xor_bits 8 b a ∷ l) (xor_bytes_comm as' bs (omega arith))

pub length-xor_bytes :
    (as' bs : List ℕ) → length as' ≡ length bs → length (xor_bytes as' bs) ≡ length as'
unfolding xor_bytes
length-xor_bytes [] bs e = refl
length-xor_bytes (a ∷ as') [] e = absurd (omega arith)
length-xor_bytes (a ∷ as') (b ∷ bs) e = ap suc (length-xor_bytes as' bs (omega arith))

-- A key that was masked by a nonce.
pub unmask-mask :
    (nonce key : List ℕ)
    → All IsByte key
    → length nonce ≡ length key
    → xor_bytes (xor_bytes nonce key) nonce ≡ key
unmask-mask nonce key h e =
    ap (λ l. xor_bytes l nonce) (xor_bytes_comm nonce key e) ∙ xor_bytes_twice key nonce h (sym e)

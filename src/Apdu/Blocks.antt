-- ===== src/Apdu/Blocks.antt =====
-- The blocks that `piv_apdu_transceive_chain` of piv.c cuts a command into.
use pivy.Prelude.{
  ℕ, zero, suc, ◌+◌, ◌*◌, ◌≤◌, ◌≡◌, refl, sym, ap, ◌∙◌, List, [], ◌∷◌, ◌++◌, true, false,
  append-nil, length, length-drop, take, drop, ltb, if◌then◌else◌, bit_set, Bool-cases, arith, inl,
  inr,
}
use pivy.Apdu.Chain.{set_chain, clear_chain}

-- The blocks of a command: 255 bytes each with the chaining bit set, and a last one with `Le`.
unfoldable pub blocks_of : ℕ → ℕ → ℕ → ℕ → ℕ → ℕ → List ℕ → List (List ℕ)
blocks_of zero cls ins p1 p2 le bytes = []
blocks_of (suc n) cls ins p1 p2 le bytes =
    let rest = blocks_of n (set_chain cls) ins p1 p2 le (drop 255 bytes) in
    if ltb 255 (length bytes)
    then (set_chain cls ∷ ins ∷ p1 ∷ p2 ∷ 255 ∷ take 255 bytes) ∷ rest
    else (clear_chain cls ∷ ins ∷ p1 ∷ p2 ∷ length bytes ∷ (bytes ++ (le ∷ []))) ∷ []

-- The data of a block, and of blocks put together.
unfoldable pub block_data : List ℕ → List ℕ
block_data (cls ∷ ins ∷ p1 ∷ p2 ∷ lc ∷ bytes) = take lc bytes
block_data other = []

unfoldable pub payload : List (List ℕ) → List ℕ
payload [] = []
payload (b ∷ bs) = block_data b ++ payload bs

pub take_append_drop : (n : ℕ) (xs : List ℕ) → take n xs ++ drop n xs ≡ xs
take_append_drop zero xs = refl
take_append_drop (suc n) [] = refl
take_append_drop (suc n) (x ∷ xs) = ap (λ l. x ∷ l) (take_append_drop n xs)

take-take : (n : ℕ) (xs : List ℕ) → take n (take n xs) ≡ take n xs
take-take zero xs = refl
take-take (suc n) [] = refl
take-take (suc n) (x ∷ xs) = ap (λ l. x ∷ l) (take-take n xs)

pub take-length : (xs ys : List ℕ) (n : ℕ) → n ≡ length xs → take n (xs ++ ys) ≡ xs
take-length [] ys zero e = refl
take-length [] ys (suc n) e = absurd (omega arith)
take-length (x ∷ xs) ys zero e = absurd (omega arith)
take-length (x ∷ xs) ys (suc n) e = ap (λ l. x ∷ l) (take-length xs ys n (omega arith))

drop-nil : (k : ℕ) → drop {A = ℕ} k [] ≡ []
drop-nil zero = refl
drop-nil (suc k) = refl

pub drop-drop : (n m : ℕ) (xs : List ℕ) → drop m (drop n xs) ≡ drop (n + m) xs
drop-drop zero m xs = ap (λ k. drop k xs) (omega arith)
drop-drop (suc n) m [] = drop-nil m ∙ sym (drop-nil (suc n + m))
drop-drop (suc n) m (x ∷ xs) =
    let e : suc (n + m) ≡ suc n + m = omega arith in drop-drop n m xs ∙ ap (λ k. drop k (x ∷ xs)) e

-- The blocks carry the command, whole and in order.
pub payload-blocks_of :
    (n cls ins p1 p2 le : ℕ) (bytes : List ℕ)
    → length bytes ≤ 255 * n
    → payload (blocks_of n cls ins p1 p2 le bytes) ≡ bytes
unfolding payload blocks_of block_data
payload-blocks_of zero cls ins p1 p2 le [] h = refl
payload-blocks_of zero cls ins p1 p2 le (b ∷ bytes) h = absurd (omega arith)
payload-blocks_of (suc n) cls ins p1 p2 le bytes h = elim (Bool-cases (ltb 255 (length bytes))) [
  | inl e ↦ rw e (
      rw
        (
          take-take 255 bytes,
          payload-blocks_of n (set_chain cls) ins p1 p2 le (drop 255 bytes)
              (omega (arith, length-drop 255 bytes)),
        )
        (take_append_drop 255 bytes))
  | inr e ↦ rw e (
      append-nil (take (length bytes) (bytes ++ (le ∷ [])))
      ∙ take-length bytes (le ∷ []) (length bytes) refl)
]

pub take_all : (xs : List ℕ) (n : ℕ) → n ≡ length xs → take n xs ≡ xs
take_all xs n e = ap (λ l. take n l) (sym (append-nil xs)) ∙ take-length xs [] n e

pub chain_bits :
    (cls : ℕ) → (bit_set (set_chain cls) 4 ≡ true) × (bit_set (clear_chain cls) 4 ≡ false)
chain_bits cls = ground arith

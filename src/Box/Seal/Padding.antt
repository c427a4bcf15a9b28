-- ===== src/Box/Seal/Padding.antt =====
-- The padding of the plaintext of a PIV box.
use pivy.Prelude.{
  ℕ, zero, suc, ◌+◌, ◌-◌, ◌≤◌, ◌<◌, ◌^◌, ◌≡◌, refl, sym, ap, ◌∙◌, subst, ◌⊎◌, inl, inr, List, [],
  ◌∷◌, ◌++◌, append_assoc, Bool, true, false, not, ◌||◌, Bool-cases, some, length, length-append,
  length-replicate, get_elem?, get_elem?-is_some, get_elem?-append, split_at, replicate, ltb, ◌==◌,
  if◌then◌else◌, arith, sub_size,
}
use pivy.Errf.{Errf, errf, no_error}
use pivy.Outcome.{Outcome, ok, err, ◌>>◌, pure, fail_if, bind-ok}
use pivy.Box.{boxderrf}
use pivy.Box.Seal.{padding_loop, strip_padding}

abbrev all_eq : List ℕ → ℕ → Bool
all_eq [] p = true
all_eq (b ∷ r) p = if b == p then all_eq r p else false

all_eq-replicate : (r : List ℕ) (p : ℕ) → all_eq r p ≡ true → r ≡ replicate (length r) p
all_eq-replicate [] p h = refl
all_eq-replicate (b ∷ r) p h = ground (arith, all_eq-replicate r p)

replicate-all_eq : (n p : ℕ) → all_eq (replicate n p) p ≡ true
replicate-all_eq zero p = refl
replicate-all_eq (suc n) p = ground (arith, replicate-all_eq n p)

get_elem?-replicate : (n i p : ℕ) → i < n → get_elem? (replicate n p) i ≡ some p
get_elem?-replicate zero i p h = absurd (omega arith)
get_elem?-replicate (suc n) zero p h = refl
get_elem?-replicate (suc n) (suc i) p h = get_elem?-replicate n i p (omega arith)

get_elem?-behind :
    (w r : List ℕ) (i j : ℕ) → j ≡ length w + i → get_elem? (w ++ r) j ≡ get_elem? r i
get_elem?-behind [] r i j h = let e : j ≡ i = omega arith in ap (get_elem? r) e
get_elem?-behind (x ∷ w) r i zero h = absurd (omega arith)
get_elem?-behind (x ∷ w) r i (suc j) h = get_elem?-behind w r i j (omega arith)

pub last-replicate :
    (w : List ℕ) (n p : ℕ) → 0 < n → get_elem? (w ++ replicate n p) (length w + n - 1) ≡ some p
last-replicate w n p h =
    get_elem?-behind w (replicate n p) (n - 1) (length w + n - 1) (omega arith)
    ∙ get_elem?-replicate n (n - 1) p (omega arith)

padding_loop_lem :
    {S : Type 0} (w r : List ℕ) (p : ℕ) (s : S)
    → padding_loop (w ++ r) p (length w) (length r) s ≡ ok (all_eq r p) s
unfolding padding_loop
padding_loop_lem w [] p s = refl
padding_loop_lem {S} w (b ∷ r) p s =
    let next =
      subst (λ i. padding_loop {S = S} ((w ++ (b ∷ [])) ++ r) p i (length r) s ≡ ok (all_eq r p) s)
        (length-append w (b ∷ [])) (padding_loop_lem (w ++ (b ∷ [])) r p s) in
    let here =
      subst (λ l. padding_loop {S = S} l p (length w + 1) (length r) s ≡ ok (all_eq r p) s)
        (append_assoc w (b ∷ []) r) next in
    rw (get_elem?-append w r b, padding_loop)
      (elim (Bool-cases (b == p)) [ inl same ↦ rw same here | inr other ↦ rw other refl ])

abbrev padding_error : Errf
padding_error = boxderrf (errf "PaddingError" no_error)

finish :
    {S : Type 0} (good : Bool) (n : ℕ) (s : S)
    → (fail_if (not good) padding_error >> pure n) s
      ≡ (if good then ok n s else err padding_error s)
finish true n s = refl
finish false n s = refl

-- A last byte that can be a padding, with `p` bytes `r` at the end.
strip_padding_split :
    {S : Type 0} (blocksz : ℕ) (w r : List ℕ) (p : ℕ) (s : S)
    → get_elem? (w ++ r) (length w + p - 1) ≡ some p
    → length r ≡ p
    → 0 < p
    → p ≤ blocksz
    → length w + p < 2 ^ 64
    → strip_padding blocksz (length w + p) (w ++ r) s
      ≡ (if all_eq r p then ok (length w) s else err padding_error s)
unfolding strip_padding
strip_padding_split {S} blocksz w r p s last n low high small =
    let e1 : sub_size (length w + p) 1 ≡ length w + p - 1 = omega arith in
    let e2 : sub_size (length w + p) p ≡ length w = omega arith in
    let e3 : length w + p - length w ≡ length r = omega arith in
    let e4 : (ltb p 1 || ltb blocksz p) ≡ false = ground arith in
    rw (e1, last, e4, e2, e3)
      (bind-ok (padding_loop (w ++ r) p (length w) (length r)) _ s (all_eq r p) s
          (padding_loop_lem w r p s)
        ∙ finish (all_eq r p) (length w) s)

pub strip_padding-replicate :
    {S : Type 0} (blocksz : ℕ) (w : List ℕ) (p : ℕ) (s : S)
    → 0 < p
    → p ≤ blocksz
    → length w + p < 2 ^ 64
    → strip_padding blocksz (length w + p) (w ++ replicate p p) s ≡ ok (length w) s
strip_padding-replicate blocksz w p s low high small =
    strip_padding_split blocksz w (replicate p p) p s (last-replicate w p p low)
      (length-replicate p p) low high small
    ∙ rw (replicate-all_eq p p) refl

-- The plaintext ends in its padding, of at most a block, and the rest of it counts; or the padding
-- is refused.
abbrev pub Stripped : {S : Type 0} → ℕ → List ℕ → S → Outcome S ℕ → Type 0
Stripped blocksz plain s o =
    ((w : List ℕ) × (p : ℕ) × (0 < p)
      × (p ≤ blocksz)
      × (plain ≡ w ++ replicate p p)
      × (o ≡ ok (length w) s))
    ⊎ (o ≡ err padding_error s)

good_or_not :
    {S : Type 0} (blocksz p : ℕ) (w r plain : List ℕ) (s : S) (o : Outcome S ℕ) (good : Bool)
    → all_eq r p ≡ good
    → 0 < p
    → p ≤ blocksz
    → length r ≡ p
    → plain ≡ w ++ r
    → o ≡ (if good then ok (length w) s else err padding_error s)
    → Stripped blocksz plain s o
good_or_not blocksz p w r plain s o true g low high n e h =
    inl (
      w,
      p,
      low,
      high,
      e ∙ ap (λ t. w ++ t) (all_eq-replicate r p g ∙ ap (λ k. replicate k p) n),
      h,
    )
good_or_not blocksz p w r plain s o false g low high n e h = inr h

bad_last :
    {S : Type 0} (blocksz p : ℕ) (plain : List ℕ) (s : S)
    → get_elem? plain (length plain - 1) ≡ some p
    → 0 < length plain
    → length plain < 2 ^ 64
    → (ltb p 1 || ltb blocksz p) ≡ true
    → strip_padding blocksz (length plain) plain s ≡ err padding_error s
unfolding strip_padding
bad_last blocksz p plain s last some_byte small bad =
    let e1 : sub_size (length plain) 1 ≡ length plain - 1 = omega arith in rw (e1, last, bad) refl

good_last :
    {S : Type 0} (blocksz p : ℕ) (w r plain : List ℕ) (s : S)
    → get_elem? plain (length plain - 1) ≡ some p
    → plain ≡ w ++ r
    → length w ≡ length plain - p
    → 0 < p
    → p ≤ blocksz
    → blocksz ≤ length plain
    → length plain < 2 ^ 64
    → Stripped blocksz plain s (strip_padding blocksz (length plain) plain s)
good_last {S} blocksz p w r plain s last e n low high room small =
    let whole : length w + length r ≡ length plain = sym (length-append w r) ∙ ap length (sym e) in
    let last_r : length r ≡ p = omega arith in
    let total : length plain ≡ length w + p = omega arith in
    let last_at =
      subst (λ l. get_elem? l (length w + p - 1) ≡ some p) e
        (subst (λ k. get_elem? plain (k - 1) ≡ some p) total last) in
    let split = strip_padding_split blocksz w r p s last_at last_r low high (omega arith) in
    good_or_not blocksz p w r plain s (strip_padding blocksz (length plain) plain s) (all_eq r p)
      refl low high last_r e
      (ap (λ k. strip_padding blocksz k plain s) total
        ∙ ap (λ l. strip_padding blocksz (length w + p) l s) e
        ∙ split)

-- The padding of a plaintext of at least a block is tested without an access outside of it: it is
-- accepted only if it is `p` bytes `p` for a `p` from 1 to the size of a block, which are taken off.
pub strip_padding-Stripped :
    {S : Type 0} (blocksz : ℕ) (plain : List ℕ) (s : S)
    → 0 < blocksz
    → blocksz ≤ length plain
    → length plain < 2 ^ 64
    → Stripped blocksz plain s (strip_padding blocksz (length plain) plain s)
strip_padding-Stripped blocksz plain s some_block room small =
    let (p, last) = get_elem?-is_some plain (length plain - 1) (omega arith) in
    elim (Bool-cases (ltb p 1 || ltb blocksz p)) [
      | inl bad ↦ inr (bad_last blocksz p plain s last (omega arith) small bad)
      | inr good ↦
          let low : 0 < p = ground arith in
          let high : p ≤ blocksz = ground arith in
          let (w, r, e, n) = split_at (length plain - p) plain (omega arith) in
          good_last blocksz p w r plain s last e n low high room small
    ]

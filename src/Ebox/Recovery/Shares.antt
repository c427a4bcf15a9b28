-- ===== src/Ebox/Recovery/Shares.antt =====
-- The shares that `ebox_recover` collects.
use pivy.Prelude.{
  ℕ, ◌+◌, ◌≤◌, ◌<◌, ◌≡◌, refl, ◌∙◌, ◌⊎◌, inl, inr, List, [], ◌∷◌, ◌++◌, true, false, Option, All,
  none, some, length, lt→ltb, ◌==◌, arith,
}
use pivy.Outcome.{ok, bind-ok, verify-true}
use pivy.Box.{PivBox, buf_slice, piv_box_sealed}
use pivy.Ebox.State.{Sss, EboxPart, keyshare_len, is_empty}
use pivy.Ebox.Recovery.{Recovering, store_share, box_share, part_share, keep_share, collect_shares}

-- The ones that are there.
abbrev pub somes : {A : Type 0} → List (Option A) → List A
somes [] = []
somes (none ∷ os) = somes os
somes (some a ∷ os) = a ∷ somes os

-- At each place nothing, or what stands there.
abbrev pub Picks : {A : Type 0} → List (Option A) → List A → Type 0
Picks [] [] = Unit
Picks (o ∷ os) (x ∷ xs) = ((o ≡ none) ⊎ (o ≡ some x)) × Picks os xs
Picks [] (x ∷ xs) = ⊥
Picks (o ∷ os) [] = ⊥

-- What the code relies on of the sharing: as many of the shares as are needed, at any places and in
-- their order, give back the key, whatever stands behind them; and there are `m` shares,
-- of 33 bytes each.
pub record SssLaws (sss : Sss) : Type 0 where
  pub create_length :
      (random key : List ℕ) (m n : ℕ) → length (sss.create_keyshares random key m n) ≡ m
  pub share_length :
      (random key : List ℕ) (m n : ℕ)
      → length key ≡ 32
      → All (λ share. length share ≡ keyshare_len) (sss.create_keyshares random key m n)
  pub combine :
      (random key : List ℕ) (m n : ℕ) (picks : List (Option (List ℕ))) (rest : List (List ℕ))
      → length key ≡ 32
      → 0 < n
      → n ≤ m
      → m < 256
      → Picks picks (sss.create_keyshares random key m n)
      → n ≤ length (somes picks)
      → sss.combine_keyshares (somes picks ++ rest) n ≡ key

some_bytes : (share : List ℕ) → length share ≡ keyshare_len → is_empty (some share) ≡ false
some_bytes [] h = absurd (omega arith)
some_bytes (b ∷ bs) h = refl

store_share_lem :
    {S : Type 0} (m i : ℕ) (share : List ℕ) (s : S) → i < m → store_share m i share s ≡ ok tt s
unfolding store_share
store_share_lem m i share s h = rw (lt→ltb i m h) refl

box_share_lem :
    {K P S : Type 0} (box : PivBox K P) (share : List ℕ) (s : S)
    → box.pdb_plain.b_len ≡ keyshare_len
    → buf_slice box.pdb_plain s ≡ ok share s
    → box_share box s ≡ ok share s
unfolding box_share
box_share_lem box share s size e =
    verify-true (box.pdb_plain.b_len == keyshare_len) (buf_slice box.pdb_plain) s (ground arith) ∙ e

pub Picks-length :
    {A : Type 0} (os : List (Option A)) (xs : List A) → Picks os xs → length (somes os) ≤ length xs
Picks-length [] [] h = omega arith
Picks-length [] (x ∷ xs) h = absurd h
Picks-length (o ∷ os) [] h = absurd h
Picks-length (none ∷ os) (x ∷ xs) h = omega (arith, Picks-length os xs h.1)
Picks-length (some a ∷ os) (x ∷ xs) h = omega (arith, Picks-length os xs h.1)

module _ {EC P : Type 0} where
  -- A part has the share `o`: as a response to a challenge, or in its box, which is open; or its box
  -- is sealed.
  abbrev pub HasShare : EboxPart EC P → Option (List ℕ) → Type 0
  HasShare part none = (is_empty part.ep_share ≡ true) × (piv_box_sealed part.ep_box ≡ true)
  HasShare part (some share) =
      (length share ≡ keyshare_len)
      × ((part.ep_share ≡ some share)
          ⊎ ((is_empty part.ep_share ≡ true)
              × (piv_box_sealed part.ep_box ≡ false)
              × (part.ep_box.pdb_plain.b_len ≡ keyshare_len)
              × ((s : Recovering EC P) → buf_slice part.ep_box.pdb_plain s ≡ ok share s)))

  abbrev pub HasShares : List (EboxPart EC P) → List (Option (List ℕ)) → Type 0
  HasShares [] [] = Unit
  HasShares (part ∷ parts) (o ∷ os) = HasShare part o × HasShares parts os
  HasShares [] (o ∷ os) = ⊥
  HasShares (part ∷ parts) [] = ⊥

  part_share_lem :
      (part : EboxPart EC P) (o : Option (List ℕ)) (s : Recovering EC P)
      → HasShare part o
      → part_share part s ≡ ok o s
  unfolding part_share
  part_share_lem part none s (e1, e2) = rw (e1, e2) refl
  part_share_lem part (some share) s (size, inl e) = rw (e, some_bytes share size, size) refl
  part_share_lem part (some share) s (size, inr (e1, e2, e3, e4)) =
      rw (e1, e2)
        (bind-ok (box_share part.ep_box) _ s share s (box_share_lem part.ep_box share s e3 (e4 s)))

  pub collect_lem :
      (m : ℕ) (parts : List (EboxPart EC P)) (picks : List (Option (List ℕ))) (i : ℕ)
      (s : Recovering EC P)
      → HasShares parts picks
      → i + length (somes picks) ≤ m
      → collect_shares m parts i s ≡ ok (somes picks) s
  unfolding collect_shares keep_share
  collect_lem m [] [] i s h room = refl
  collect_lem m [] (o ∷ os) i s h room = absurd h
  collect_lem m (part ∷ parts) [] i s h room = absurd h
  collect_lem m (part ∷ parts) (none ∷ os) i s (h, hs) room =
      bind-ok (part_share part) (keep_share m i (collect_shares m parts)) s none s
        (part_share_lem part none s h)
      ∙ collect_lem m parts os i s hs room
  collect_lem m (part ∷ parts) (some share ∷ os) i s (h, hs) room =
      bind-ok (part_share part) (keep_share m i (collect_shares m parts)) s (some share) s
        (part_share_lem part (some share) s h)
      ∙ bind-ok (store_share m i share) _ s tt s (store_share_lem m i share s (omega arith))
      ∙ bind-ok (collect_shares m parts (i + 1)) _ s (somes os) s
          (collect_lem m parts os (i + 1) s hs (omega arith))

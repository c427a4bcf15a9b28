-- ===== src/Ebox/Create/Keys.antt =====
-- Private keys, and the parts of an ebox that they open.
use pivy.Prelude.{
  ℕ, suc, ◌+◌, ◌≡◌, refl, ap, ◌∙◌, inl, inr, List, [], ◌∷◌, Option, none, some, length, replicate,
  arith,
}
use pivy.Outcome.{M, ok, ◌>>=◌, pure, bind-ok}
use pivy.Box.{piv_box_sealed}
use pivy.Box.Wire.{SshKey}
use pivy.Box.Seal.{Crypto, Box, piv_box_open_offline}
use pivy.Box.Seal.Opens.{Locked, opened, front_slice, open_offline-Locked}
use pivy.Ebox.{TplPart}
use pivy.Ebox.State.{EboxPart, keyshare_len, is_empty}
use pivy.Ebox.Recovery.{Recovering}
use pivy.Ebox.Recovery.Shares.{somes, Picks, HasShares}
use pivy.Ebox.Create.{must_box}
use pivy.Ebox.Create.Parts.{Holds}

-- The shares at the places of the keys.
abbrev pub picked : {P : Type 0} → List (Option P) → List (List ℕ) → List (Option (List ℕ))
picked [] shares = []
picked (k ∷ ks) [] = []
picked (none ∷ ks) (share ∷ shares) = none ∷ picked ks shares
picked (some k ∷ ks) (share ∷ shares) = some share ∷ picked ks shares

pub picked-Picks :
    {P : Type 0} (ks : List (Option P)) (shares : List (List ℕ))
    → length ks ≡ length shares
    → Picks (picked ks shares) shares
picked-Picks [] [] h = tt
picked-Picks [] (share ∷ shares) h = absurd (omega arith)
picked-Picks (k ∷ ks) [] h = absurd (omega arith)
picked-Picks (none ∷ ks) (share ∷ shares) h = (inl refl, picked-Picks ks shares (omega arith))
picked-Picks (some k ∷ ks) (share ∷ shares) h = (inr refl, picked-Picks ks shares (omega arith))

pub somes-picked :
    {P : Type 0} (ks : List (Option P)) (shares : List (List ℕ))
    → length ks ≡ length shares
    → length (somes (picked ks shares)) ≡ length (somes ks)
somes-picked [] [] h = refl
somes-picked [] (share ∷ shares) h = absurd (omega arith)
somes-picked (k ∷ ks) [] h = absurd (omega arith)
somes-picked (none ∷ ks) (share ∷ shares) h = somes-picked ks shares (omega arith)
somes-picked (some k ∷ ks) (share ∷ shares) h = ap suc (somes-picked ks shares (omega arith))

module _ {EC P : Type 0} (crypto : Crypto EC P) where
  -- For each part of a template its private key, or none.
  abbrev pub KeysOf : List (Option P) → List (TplPart EC) → Type 0
  KeysOf [] [] = Unit
  KeysOf [] (t ∷ ts) = ⊥
  KeysOf (k ∷ ks) [] = ⊥
  KeysOf (none ∷ ks) (t ∷ ts) = KeysOf ks ts
  KeysOf (some k ∷ ks) (t ∷ ts) =
      ((pubk : SshKey EC) × (t.etp_pubkey ≡ some pubk) × (crypto.sshkey_demote k ≡ some pubk))
      × KeysOf ks ts

  pub KeysOf-length :
      (ks : List (Option P)) (ts : List (TplPart EC)) → KeysOf ks ts → length ks ≡ length ts
  KeysOf-length [] [] h = refl
  KeysOf-length [] (t ∷ ts) h = absurd h
  KeysOf-length (k ∷ ks) [] h = absurd h
  KeysOf-length (none ∷ ks) (t ∷ ts) h = ap suc (KeysOf-length ks ts h)
  KeysOf-length (some k ∷ ks) (t ∷ ts) h = ap suc (KeysOf-length ks ts h.1)

  -- The boxes of the parts that there is a key for are opened, one after the other.
  unfoldable pub open_parts :
      {S : Type 0} → List (Option P) → List (EboxPart EC P) → M S (List (EboxPart EC P))
  open_parts [] parts = pure parts
  open_parts (k ∷ ks) [] = pure []
  open_parts (none ∷ ks) (part ∷ parts) = do others ← open_parts ks parts; pure (part ∷ others)
  open_parts (some k ∷ ks) (part ∷ parts) = do
    box ← must_box (piv_box_open_offline crypto k) part.ep_box
    others ← open_parts ks parts
    pure (record part { ep_box = box } ∷ others)

  -- The keys open the parts, which then have the shares.
  abbrev pub Opens : List (Option P) → List (Option (List ℕ)) → List (EboxPart EC P) → Type 0
  Opens ks picks parts =
      (others : List (EboxPart EC P)) × ((s : Recovering EC P)
        → open_parts ks parts s ≡ ok others s)
      × HasShares others picks

  pub Opens-none :
      (ks : List (Option P)) (picks : List (Option (List ℕ))) (tpart : TplPart EC) (d : List ℕ)
      (part : EboxPart EC P) (parts : List (EboxPart EC P))
      → Holds crypto tpart d part
      → Opens ks picks parts
      → Opens (none ∷ ks) (none ∷ picks) (part ∷ parts)
  unfolding open_parts
  Opens-none ks picks tpart d part parts (shut, bare, opens) (others, run, has) = (
    part ∷ others,
    λ s. bind-ok (open_parts ks parts) _ s others s (run s),
    ((ap is_empty bare, shut), has),
  )

  pub must_open :
      {S : Type 0} (k : P) (d : List ℕ) (box : Box crypto) (s : S) (l : Locked crypto k d box)
      → must_box (piv_box_open_offline crypto k) box s ≡ ok (opened crypto d l.pad box) s
  unfolding must_box
  must_open k d box s l = rw (open_offline-Locked crypto k d box l, must_box) refl

  pub Opens-some :
      (k : P) (ks : List (Option P)) (picks : List (Option (List ℕ))) (tpart : TplPart EC)
      (d : List ℕ) (part : EboxPart EC P) (parts : List (EboxPart EC P)) (pubk : SshKey EC)
      → tpart.etp_pubkey ≡ some pubk
      → crypto.sshkey_demote k ≡ some pubk
      → length d ≡ keyshare_len
      → Holds crypto tpart d part
      → Opens ks picks parts
      → Opens (some k ∷ ks) (some d ∷ picks) (part ∷ parts)
  unfolding open_parts piv_box_sealed
  Opens-some k ks picks tpart d part parts pubk named demoted size (shut, bare, opens)
        (others, run, has) =
      let l = opens k pubk named demoted in
      let box = opened crypto d l.pad part.ep_box in
      (
        record part { ep_box = box } ∷ others,
        λ s.
            bind-ok (must_box (piv_box_open_offline crypto k) part.ep_box) _ s box s
              (must_open k d part.ep_box s l)
            ∙ bind-ok (open_parts ks parts) _ s others s (run s),
        (
          (
            size,
            inr (
              ap is_empty bare,
              refl,
              size,
              λ s. front_slice d (replicate l.pad l.pad) (length d + l.pad) s,
            ),
          ),
          has,
        ),
      )

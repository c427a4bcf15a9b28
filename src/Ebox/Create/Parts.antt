-- ===== src/Ebox/Create/Parts.antt =====
-- The parts that `ebox_create` makes open with the private keys of the tokens.
use pivy.Prelude.{
  ℕ, ◌+◌, ◌%◌, ◌<◌, ◌^◌, ◌≡◌, refl, sym, ap, ◌∙◌, subst, List, [], ◌∷◌, true, Option, none, some,
  length, arith,
}
use pivy.Outcome.{ok, abort}
use pivy.Outcome.Ends.{Ends, Ends-bind}
use pivy.Box.{
  PivBox, piv_box_new, full_buf, piv_box_set_data, piv_box_sealed, buf_slice, non_null,
  default_cipher,
}
use pivy.Box.Wire.{SshKey}
use pivy.Box.Seal.{Cipher, Crypto, Box, piv_box_seal_offline}
use pivy.Box.Seal.Opens.{Locked}
use pivy.Box.Seal.Seals.{CryptoLaws, AnyErr, Ends-same, seal-Locked}
use pivy.Ebox.{TplPart, TplConfig, clone_part}
use pivy.Ebox.State.{EboxPart, Ebox, Sss}
use pivy.Ebox.Create.{
  Draws, share_of, must_box, find_ephem, ebox_make_ephem_for_nid, part_data, create_part,
  create_parts,
}
use pivy.Ebox.Create.Steps.{any-Ends, both-Ends, all-Ends, must_box-Ends, seal-sealed}

module _ {EC P : Type 0} (crypto : Crypto EC P) where
  -- All but the keys for the curves is as it was.
  abbrev pub Keys : Ebox EC P → Ebox EC P → Type 0
  Keys s s' = (keys : List (ℕ × P)) × (s' ≡ record s { e_ephemkeys = keys })

  pub Keys-trans : (s s' s'' : Ebox EC P) → Keys s s' → Keys s' s'' → Keys s s''
  Keys-trans s s' s'' (k1, e1) (k2, e2) =
      (k2, e2 ∙ ap (λ (t : Ebox EC P). record t { e_ephemkeys = k2 }) e1)

  -- In the box of a part the data `d` is sealed to the key of the part of the template.
  abbrev pub Holds : TplPart EC → List ℕ → EboxPart EC P → Type 0
  Holds tpart d part =
      (piv_box_sealed part.ep_box ≡ true)
      × (part.ep_share ≡ none)
      × ((privkey : P) (pubk : SshKey EC)
          → tpart.etp_pubkey ≡ some pubk
          → crypto.sshkey_demote privkey ≡ some pubk
          → Locked crypto privkey d part.ep_box)

module _ {EC P : Type 0} (crypto : Crypto EC P) (sss : Sss) (draws : Draws P)
    (laws : CryptoLaws crypto)
    (ivs : (c : Cipher) (i j : ℕ)
      → crypto.cipher_by_name default_cipher ≡ some c
      → length (draws.part_random i j).new_iv ≡ c.cipher_ivlen) where
  clone-Ends :
      (tpart : TplPart EC) (s : Ebox EC P)
      → Ends (λ part s'. Unit {0} × (s' ≡ s)) AnyErr (clone_part crypto tpart s)
  unfolding clone_part pivy.Ebox.clone_part_key
  clone-Ends tpart s = ground arith

  set_data-Ends :
      (d : List ℕ) (box : Box crypto)
      → Ends (λ u b. b ≡ record box { pdb_plain = full_buf d }) AnyErr (piv_box_set_data d box)
  unfolding piv_box_set_data
  set_data-Ends d box = ground arith

  non_null-Ends :
      {S A : Type 0} (o : Option A) (s : S)
      → Ends (λ a s'. (o ≡ some a) × (s' ≡ s)) AnyErr (non_null o s)
  unfolding non_null
  non_null-Ends o s = ground arith

  ephem-Ends :
      (nid : ℕ) (s : Ebox EC P)
      → Ends (λ key s'. Keys crypto s s') AnyErr (ebox_make_ephem_for_nid draws nid s)
  unfolding ebox_make_ephem_for_nid
  ephem-Ends nid s = go (find_ephem nid s.e_ephemkeys) (draws.curve_key nid)
    where
      go :
          (o q : Option P)
          → Ends
              (λ key s'. Keys crypto s s')
              AnyErr
              (elim o [
                | some key ↦ ok key s
                | none ↦ elim q [
                  | none ↦ abort
                  | some key ↦ ok key (record s { e_ephemkeys = (nid, key) ∷ s.e_ephemkeys })
                ]
              ])
      go (some key) q = (s.e_ephemkeys, refl)
      go none (some key) = ((nid, key) ∷ s.e_ephemkeys, refl)
      go none none = tt

  -- A box that the data was put into, when it is sealed.
  sealed-Ends :
      (c i : ℕ) (pubk : SshKey EC) (d : List ℕ) (box : Box crypto)
      → box.pdb_plain ≡ full_buf d
      → length d < 2 ^ 63
      → box.pdb_cipher ≡ none
      → Ends
          (λ u b.
            (piv_box_sealed b ≡ true)
            × ((privkey : P)
                → (crypto.sshkey_demote privkey ≡ some pubk → Locked crypto privkey d b)))
          AnyErr
          (piv_box_seal_offline crypto (draws.part_random c i) pubk box)
  sealed-Ends c i pubk d box holds room unnamed =
      both-Ends (λ u b. piv_box_sealed b ≡ true) _ _
        (seal-sealed crypto (draws.part_random c i) pubk box)
        (all-Ends
          (λ (privkey : P) u b.
            crypto.sshkey_demote privkey ≡ some pubk → Locked crypto privkey d b)
          _
          (λ privkey.
            all-Ends (λ key u b. Locked crypto privkey d b) _
              (λ key.
                seal-Locked crypto laws (draws.part_random c i) privkey pubk d box holds room key
                  (λ cipher by_name. ivs cipher c i (
                    subst
                      (λ o.
                        crypto.cipher_by_name (pivy.Box.or_default o default_cipher) ≡ some cipher)
                      unnamed by_name)))))

  pub create_part-Ends :
      (key d : List ℕ) (c i : ℕ) (shares : Option (List (List ℕ))) (tpart : TplPart EC)
      (s : Ebox EC P)
      → ((t : Ebox EC P) → part_data key shares (i % 256) t ≡ ok d t)
      → length d < 2 ^ 63
      → Ends
          (λ part s'. Holds crypto tpart d part × Keys crypto s s')
          AnyErr
          (create_part crypto sss draws key c shares i tpart s)
  unfolding create_part piv_box_new
  create_part-Ends key d c i shares tpart s given room =
      let data-Ends : Ends (λ v s'. (v ≡ d) × (s' ≡ s)) AnyErr (part_data key shares (i % 256) s) =
        subst (Ends (λ v s'. (v ≡ d) × (s' ≡ s)) AnyErr) (sym (given s)) (refl, refl) in
      Ends-same _ _ (clone_part crypto tpart) _ s (clone-Ends tpart s) (λ part u.
        Ends-same _ _ (part_data key shares (i % 256)) _ s data-Ends (λ v same.
          Ends-same _ _ (must_box (piv_box_set_data v) _) _ s
            (must_box-Ends _ (piv_box_set_data v) _ s (set_data-Ends v _))
            (λ full h1.
              Ends-same _ _ (non_null tpart.etp_pubkey) _ s (non_null-Ends tpart.etp_pubkey s)
                (λ pubk h2.
                  Ends-bind (λ k s'. Keys crypto s s') _ AnyErr
                    (ebox_make_ephem_for_nid draws pubk.ecdsa_nid) _ s (ephem-Ends pubk.ecdsa_nid s)
                    (λ ephem s1 keys.
                      let boxed : full.pdb_plain ≡ full_buf d =
                        ap (λ (b : Box crypto). b.pdb_plain) h1 ∙ ap full_buf same in
                      let unnamed : full.pdb_cipher ≡ none =
                        ap (λ (b : Box crypto). b.pdb_cipher) h1 in
                      Ends-same _ _ (must_box (piv_box_seal_offline crypto _ pubk) _) _ s1
                        (must_box-Ends _ (piv_box_seal_offline crypto _ pubk) _ s1 (
                          sealed-Ends c i pubk d (record full { pdb_ephem = some ephem }) boxed room
                            unnamed))
                        (λ sealed (shut, opens). (
                          (
                            shut,
                            refl,
                            λ privkey pubk' named demoted. opens privkey (demoted ∙ sym named ∙ h2),
                          ),
                          keys,
                        )))))))

  part_data-Ends :
      (key : List ℕ) (shares : Option (List (List ℕ))) (id : ℕ) (s : Ebox EC P)
      → Ends (λ v s'. Unit {0} × (s' ≡ s)) AnyErr (part_data key shares id s)
  unfolding part_data share_of
  part_data-Ends key none id s = (tt, refl)
  part_data-Ends key (some shares) id s = ground arith

  -- Whatever goes into a part.
  create_part-Keys :
      (key : List ℕ) (c i : ℕ) (shares : Option (List (List ℕ))) (tpart : TplPart EC)
      (s : Ebox EC P)
      → Ends
          (λ part s'. Keys crypto s s')
          AnyErr
          (create_part crypto sss draws key c shares i tpart s)
  unfolding create_part
  create_part-Keys key c i shares tpart s =
      Ends-same _ _ (clone_part crypto tpart) _ s (clone-Ends tpart s) (λ part u.
        Ends-same _ _ (part_data key shares (i % 256)) _ s (part_data-Ends key shares (i % 256) s)
          (λ v u.
            Ends-same _ _ (must_box (piv_box_set_data v) _) _ s
              (must_box-Ends (λ b. Unit {0}) (piv_box_set_data v) _ s (any-Ends _))
              (λ full u.
                Ends-same _ _ (non_null tpart.etp_pubkey) _ s (non_null-Ends tpart.etp_pubkey s)
                  (λ pubk u.
                    Ends-bind (λ k s'. Keys crypto s s') _ AnyErr
                      (ebox_make_ephem_for_nid draws pubk.ecdsa_nid) _ s
                      (ephem-Ends pubk.ecdsa_nid s)
                      (λ ephem s1 keys.
                        Ends-same _ _ (must_box (piv_box_seal_offline crypto _ pubk) _) _ s1
                          (must_box-Ends (λ b. Unit {0}) (piv_box_seal_offline crypto _ pubk) _ s1
                            (any-Ends _))
                          (λ sealed u. keys))))))

  pub create_parts-Keys :
      (key : List ℕ) (c i : ℕ) (shares : Option (List (List ℕ))) (tparts : List (TplPart EC))
      (s : Ebox EC P)
      → Ends
          (λ parts s'. Keys crypto s s')
          AnyErr
          (create_parts crypto sss draws key c shares i tparts s)
  unfolding create_parts
  create_parts-Keys key c i shares [] s = (s.e_ephemkeys, refl)
  create_parts-Keys key c i shares (tpart ∷ tparts) s =
      Ends-bind (λ part s'. Keys crypto s s') _ AnyErr
        (create_part crypto sss draws key c shares i tpart) _ s
        (create_part-Keys key c i shares tpart s)
        (λ part s1 k1.
          Ends-bind (λ parts s'. Keys crypto s1 s') _ AnyErr
            (create_parts crypto sss draws key c shares (i + 1) tparts) _ s1
            (create_parts-Keys key c (i + 1) shares tparts s1)
            (λ parts s2 k2. Keys-trans crypto s s1 s2 k1 k2))

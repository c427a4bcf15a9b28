-- ===== src/Box/Wire/WellFormed.antt =====
-- What holds of a PIV box that was read from bytes.
use pivy.Prelude.{
  ℕ, ◌≤◌, ◌<◌, ◌≡◌, refl, ◌⊎◌, inl, inr, Bool-cases, ap, List, Bool, true, false, not, some, length,
  leb, arith,
}
use pivy.Errf.{Errf}
use pivy.Outcome.{Outcome, ok, err, ◌>>◌, pure, fail_if}
use pivy.Outcome.Ends.{Ends, Ends-bind}
use pivy.Apdu.{ApduBuf, empty_buf}
use pivy.Box.{PivBox, box_v1, box_v2, box_vnext, piv_box_new, piv_box_sealed, full_buf}
use pivy.Box.Wire.{
  SshKey, SshBuf, Buf, take_from, get_magic, get_version, get_guidslot, get_nonce, get_curve,
  get_key, get_fields, sshbuf_get_piv_box,
}
use pivy.Box.Wire.Fields.{ec_key}

-- Both keys are valid points of the curve `nid`.
abbrev pub KeysValid : {EC P : Type 0} → SshBuf EC → PivBox (SshKey EC) P → Type 0
KeysValid {EC} ssh box =
    (nid : ℕ) × (k : EC) × (k2 : EC) × (box.pdb_pub ≡ some (ec_key true nid k))
    × (box.pdb_ephem_pub ≡ some (ec_key true nid k2))
    × (ssh.ec_validate_public nid k ≡ true)
    × (ssh.ec_validate_public nid k2 ≡ true)

-- No memory, or all of it.
abbrev pub Whole : ApduBuf → Type 0
Whole r = (r ≡ empty_buf) ⊎ ((bytes : List ℕ) × (r ≡ full_buf bytes))

-- What opening a box needs of it.
abbrev pub CanOpen : {K P : Type 0} → PivBox K P → Type 0
CanOpen {K} box =
    ((k : K) × (box.pdb_ephem_pub ≡ some k))
    × Whole box.pdb_nonce
    × Whole box.pdb_iv
    × Whole box.pdb_enc

-- A sealed box of a known version, with a whole GUID.
abbrev pub IsBox : {EC P : Type 0} → SshBuf EC → PivBox (SshKey EC) P → Type 0
IsBox ssh box =
    (box_v1 ≤ box.pdb_version)
    × (box.pdb_version < box_vnext)
    × (length box.pdb_guid ≡ 16)
    × (box.pdb_version ≡ box_v1 → box.pdb_nonce ≡ empty_buf)
    × (piv_box_sealed box ≡ true)
    × KeysValid ssh box
    × CanOpen box

abbrev pub Any : {A : Type 0} → A → Buf → Type 0
Any a b = Unit

abbrev pub AnyErr : Errf → Buf → Type 0
AnyErr e b = Unit

not_new : (ver : ℕ) → ver ≡ box_v1 → leb box_v2 ver ≡ true → ⊥
not_new ver one new = ground arith

pub Any-Ends : {A : Type 0} (o : Outcome Buf A) → Ends Any AnyErr o
Any-Ends (ok a s) = tt
Any-Ends (err e s) = tt
Any-Ends Outcome.abort = tt
Any-Ends Outcome.fault = tt
Any-Ends Outcome.stuck = tt

module _ {EC : Type 0} (P : Type 0) (ssh : SshBuf EC) where
  version-Ends :
      (b : Buf) → Ends (λ v b'. (box_v1 ≤ v) × (v < box_vnext)) AnyErr (get_version ssh b)
  unfolding get_version take_from
  version-Ends b = ground arith

  guidslot-Ends : (b : Buf) → Ends (λ g b'. length g.1 ≡ 16) AnyErr (get_guidslot ssh b)
  unfolding get_guidslot take_from
  guidslot-Ends b = ground arith

  nonce-Ends :
      (ver : ℕ) (b : Buf)
      → Ends (λ r b'. (ver ≡ box_v1 → r ≡ empty_buf) × Whole r) AnyErr (get_nonce ssh ver b)
  unfolding get_nonce
  nonce-Ends ver b = elim (Bool-cases (leb box_v2 ver)) [
    | inl new ↦ rw new (
        Ends-bind Any _ AnyErr (take_from ssh.get_string8) _ b (Any-Ends _)
          (λ bytes b' u. ((λ one. absurd (not_new ver one new)), inr (bytes, refl))))
    | inr old ↦ rw old ((λ one. refl), inl refl)
  ]

  abbrev IsKey : ℕ → SshKey EC → Buf → Type 0
  IsKey nid key b = (k : EC) × (key ≡ ec_key true nid k) × (ssh.ec_validate_public nid k ≡ true)

  checked-Ends :
      (nid : ℕ) (k : EC) (b : Buf) (c : Bool) (e : Errf)
      → ssh.ec_validate_public nid k ≡ c
      → Ends (IsKey nid) AnyErr ((fail_if (not c) e >> pure (ec_key true nid k)) b)
  checked-Ends nid k b true e good = (k, refl, good)
  checked-Ends nid k b false e bad = tt

  get_key-Ends : (nid : ℕ) (b : Buf) → Ends (IsKey nid) AnyErr (get_key ssh nid b)
  unfolding get_key
  get_key-Ends nid b =
      Ends-bind Any (IsKey nid) AnyErr (take_from (ssh.get_eckey8 nid)) _ b (Any-Ends _)
        (λ k b' u. checked-Ends nid k b' (ssh.ec_validate_public nid k) _ refl)

  abbrev Boxes : PivBox (SshKey EC) P → Buf → Type 0
  Boxes box b = IsBox ssh box

  fields-Ends : (b : Buf) → Ends Boxes AnyErr (get_fields ssh {P = P} b)
  unfolding get_fields piv_box_new piv_box_sealed
  fields-Ends b =
      Ends-bind (λ v b'. (box_v1 ≤ v) × (v < box_vnext)) _ _ (get_version ssh) _ b (version-Ends b)
        (λ ver b1 low_high.
          Ends-bind (λ g b'. length g.1 ≡ 16) _ _ (get_guidslot ssh) _ b1 (guidslot-Ends b1)
            (λ g b2 full.
              Ends-bind Any _ _ (take_from ssh.get_cstring8) _ b2 (Any-Ends _) (λ cipher b3 u3.
                Ends-bind Any _ _ (take_from ssh.get_cstring8) _ b3 (Any-Ends _) (λ kdf b4 u4.
                  Ends-bind (λ r b'. (ver ≡ box_v1 → r ≡ empty_buf) × Whole r) _ _
                    (get_nonce ssh ver) _ b4 (nonce-Ends ver b4)
                    (λ nonce b5 old.
                      Ends-bind Any _ _ (get_curve ssh) _ b5 (Any-Ends _) (λ nid b6 u6.
                        Ends-bind (IsKey nid) _ _ (get_key ssh nid) _ b6 (get_key-Ends nid b6)
                          (λ key b7 one.
                            Ends-bind (IsKey nid) _ _ (get_key ssh nid) _ b7 (get_key-Ends nid b7)
                              (λ ephem b8 two.
                                Ends-bind Any _ _ (take_from ssh.get_string8) _ b8 (Any-Ends _)
                                  (λ iv b9 u9.
                                    Ends-bind Any Boxes AnyErr (take_from ssh.get_string) _ b9
                                      (Any-Ends _)
                                      (λ enc b10 u10. (
                                        low_high.0,
                                        low_high.1,
                                        full,
                                        old.0,
                                        refl,
                                        (
                                          nid,
                                          one.0,
                                          two.0,
                                          ap some one.1,
                                          ap some two.1,
                                          one.2,
                                          two.2,
                                        ),
                                        ((ephem, refl), old.1, inr (iv, refl), inr (enc, refl)),
                                      )))))))))))

  -- A box that `sshbuf_get_piv_box` returns has version 1 or 2 and a whole GUID, no nonce if it has
  -- version 1, is sealed, and its two keys are valid points of one curve.
  pub sshbuf_get_piv_box-IsBox :
      (b : Buf)
      → Ends (λ box b'. IsBox {P = P} ssh box) (λ e b'. Unit) (sshbuf_get_piv_box ssh {P = P} b)
  unfolding sshbuf_get_piv_box
  sshbuf_get_piv_box-IsBox b =
      Ends-bind Any Boxes AnyErr (get_magic ssh) (λ _. get_fields ssh {P = P}) b (Any-Ends _)
        (λ u b1 h. fields-Ends b1)

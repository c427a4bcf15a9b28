-- ===== src/Box/Binary/Versions.antt =====
-- Which boxes the two formats give, and which magic numbers are taken.
use pivy.Prelude.{
  ℕ, ◌≡◌, refl, sym, ◌∙◌, ◌⊎◌, inl, inr, ◌∷◌, true, false, not, Bool-cases, ◌==◌, arith,
}
use pivy.Outcome.{ok, bind-cong, bind-ok}
use pivy.Outcome.Ends.{Ends, Ends-bind, Ends-fail_if, Ends-weaken}
use pivy.Box.{PivBox, piv_box_new, piv_box_sealed}
use pivy.Box.Wire.{SshKey, SshBuf, Buf, take_from, get_magic, get_fields, sshbuf_get_piv_box}
use pivy.Box.Wire.Carries.{take_from-some}
use pivy.Box.Wire.Fields.{SshBufLaws}
use pivy.Box.Wire.WellFormed.{CanOpen, IsBox, Any, AnyErr, Any-Ends, sshbuf_get_piv_box-IsBox}
use pivy.Box.Binary.{take_old, old_key, old_guid, is_old, piv_box_read_old_v1, piv_box_from_binary}

-- A box of the format before: no version, and its GUID and slot are not marked as set.
abbrev pub IsOldBox : {EC P : Type 0} → PivBox (SshKey EC) P → Type 0
IsOldBox box =
    (box.pdb_version ≡ 0)
    × (box.pdb_guidslot_valid ≡ false)
    × (piv_box_sealed box ≡ true)
    × CanOpen box

module _ {EC : Type 0} (P : Type 0) (ssh : SshBuf EC) where
  abbrev pub IsRead : Buf → PivBox (SshKey EC) P → Buf → Type 0
  IsRead input box rest =
      ((is_old input ≡ true) × IsOldBox box) ⊎ ((is_old input ≡ false) × IsBox ssh box)

  abbrev Old : PivBox (SshKey EC) P → Buf → Type 0
  Old box b = IsOldBox box

  first_format-Ends : (b : Buf) → Ends Old AnyErr (piv_box_read_old_v1 ssh {P = P} b)
  unfolding piv_box_read_old_v1 piv_box_new piv_box_sealed
  first_format-Ends b =
      Ends-bind Any Old AnyErr (take_old ssh.get_u8) _ b (Any-Ends _) (λ ver b1 u1.
        Ends-fail_if Old AnyErr (not (ver == 1)) _ _ b1 tt (
          Ends-bind Any Old AnyErr (old_guid ssh) _ b1 (Any-Ends _) (λ guid b2 u2.
            Ends-bind Any Old AnyErr (take_old ssh.get_u8) _ b2 (Any-Ends _) (λ slot b3 u3.
              Ends-bind Any Old AnyErr (old_key ssh) _ b3 (Any-Ends _) (λ ephem b4 u4.
                Ends-bind Any Old AnyErr (old_key ssh) _ b4 (Any-Ends _) (λ key b5 u5.
                  Ends-bind Any Old AnyErr (take_old ssh.get_cstring) _ b5 (Any-Ends _)
                    (λ cipher b6 u6.
                      Ends-bind Any Old AnyErr (take_old ssh.get_cstring) _ b6 (Any-Ends _)
                        (λ kdf b7 u7.
                          Ends-bind Any Old AnyErr (take_old ssh.get_string) _ b7 (Any-Ends _)
                            (λ iv b8 u8.
                              Ends-bind Any Old AnyErr (take_old ssh.get_string) _ b8 (Any-Ends _)
                                (λ enc b9 u9. (
                                  refl,
                                  refl,
                                  refl,
                                  ((ephem, refl), inl refl, inr (iv, refl), inr (enc, refl)),
                                )))))))))))

  -- A box that `piv_box_from_binary` returns is sealed. If the input is of the format before, the
  -- box has version 0, which `sshbuf_get_piv_box` refuses, and its GUID and slot do not count as
  -- set; else it has version 1 or 2, a whole GUID and two valid keys of one curve.
  pub piv_box_from_binary-IsRead :
      (input : Buf) → Ends (IsRead input) (λ e rest. Unit) (piv_box_from_binary ssh {P = P} input)
  unfolding piv_box_from_binary
  piv_box_from_binary-IsRead input = elim (Bool-cases (is_old input)) [
    | inl old ↦
        rw old (Ends-weaken Old _ AnyErr _ (first_format-Ends input) (λ box rest h. inl (old, h)))
    | inr new ↦ rw new (
        Ends-weaken (λ box b'. IsBox {P = P} ssh box) _ AnyErr _
          (sshbuf_get_piv_box-IsBox P ssh input) (λ box rest h. inr (new, h)))
  ]

  magic_lem :
      SshBufLaws ssh
      → (magic0 magic1 : ℕ) (rest : Buf) → (magic0 ≡ 0xB0) ⊎ (magic1 ≡ 0xC5)
      → get_magic ssh (magic0 ∷ magic1 ∷ rest) ≡ ok tt rest
  unfolding get_magic
  magic_lem laws magic0 magic1 rest either =
      bind-ok (take_from ssh.get_u8) _ (magic0 ∷ magic1 ∷ rest) magic0 (magic1 ∷ rest)
        (take_from-some ssh.get_u8 _ magic0 _ (laws.u8_back magic0 (magic1 ∷ rest)))
      ∙ bind-ok (take_from ssh.get_u8) _ (magic1 ∷ rest) magic1 rest
          (take_from-some ssh.get_u8 _ magic1 _ (laws.u8_back magic1 rest))
      ∙ ground arith

  -- `sshbuf_get_piv_box` takes any two bytes of which one is that of the magic number for the
  -- magic number.
  pub sshbuf_get_piv_box-magic :
      SshBufLaws ssh
      → (magic0 magic1 : ℕ) (rest : Buf) → (magic0 ≡ 0xB0) ⊎ (magic1 ≡ 0xC5)
      → sshbuf_get_piv_box ssh {P = P} (magic0 ∷ magic1 ∷ rest)
        ≡ sshbuf_get_piv_box ssh (0xB0 ∷ 0xC5 ∷ rest)
  unfolding sshbuf_get_piv_box
  sshbuf_get_piv_box-magic laws magic0 magic1 rest either =
      bind-cong (get_magic ssh) (get_magic ssh) (λ _. get_fields ssh) (magic0 ∷ magic1 ∷ rest)
        (0xB0 ∷ 0xC5 ∷ rest)
        (magic_lem laws magic0 magic1 rest either ∙ sym (magic_lem laws 0xB0 0xC5 rest (inl refl)))

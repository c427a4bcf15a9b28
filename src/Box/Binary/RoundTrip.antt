-- ===== src/Box/Binary/RoundTrip.antt =====
-- What `piv_box_to_binary` writes, `piv_box_from_binary` reads back.
use pivy.Prelude.{
  ℕ, ◌≤◌, ◌<◌, ◌≡◌, refl, sym, ap, ◌∙◌, List, [], ◌∷◌, append-nil, Bool, true, false, not, some,
  length, ◌==◌, arith,
}
use pivy.Errf.{Errf, no_error}
use pivy.Outcome.{
  Outcome, M, ok, err, abort, fault, stuck, ◌>>=◌, ◌>>◌, pure, fail_if, bind_returns,
}
use pivy.Box.{PivBox, box_v1, box_vnext, boxderrf}
use pivy.Box.Wire.{
  SshKey, SshBuf, Buf, take_from, put_magic, get_fields, sshbuf_put_piv_box, sshbuf_get_piv_box,
}
use pivy.Box.Wire.Carries.{Carries, Carries-bind, Carries-then, Carries-fail_if, take_from-some}
use pivy.Box.Wire.Fields.{SshBufLaws, wire_form, u8-Carries}
use pivy.Box.Wire.RoundTrip.{put-Carries, sshbuf_put_piv_box-Carries}
use pivy.Box.Binary.{whole_buffer, piv_box_to_binary, is_old, piv_box_from_binary}

whole_buffer_returns :
    (o : Outcome Buf (Unit {0})) (out : Buf) → whole_buffer o ≡ ok out tt → o ≡ ok tt out
unfolding whole_buffer
whole_buffer_returns (ok u b) out h = cc h
whole_buffer_returns (err e b) out h = absurd (cc h)
whole_buffer_returns abort out h = absurd (cc h)
whole_buffer_returns fault out h = absurd (cc h)
whole_buffer_returns stuck out h = absurd (cc h)

no_failure : (c : Bool) (e : Errf) (b b' : Buf) → fail_if c e b ≡ ok tt b' → c ≡ false
no_failure true e b b' h = absurd (cc h)
no_failure false e b b' h = refl

b0_is_new :
    (first m0 : ℕ) (input rest : Buf)
    → Path (Outcome Buf ℕ) (ok first input) (ok m0 rest)
    → not (m0 == 0xB0) ≡ false
    → is_old (first ∷ input) ≡ false
b0_is_new first m0 input rest h c = ground arith

module _ {EC : Type 0} (ssh : SshBuf EC) (laws : SshBufLaws ssh) where
  -- A reader that wants the first byte to be 0xB0.
  unfoldable strict_magic : M Buf (Unit {0})
  strict_magic = do
    magic0 ← take_from ssh.get_u8
    fail_if (not (magic0 == 0xB0)) (boxderrf no_error)
    take_from ssh.get_u8
    pure tt

  strict-Carries : Carries (put_magic ssh) strict_magic tt
  unfolding put_magic strict_magic
  strict-Carries = Carries-bind _ _ _ _ 0xB0 tt (u8-Carries ssh laws 0xB0) (
      Carries-fail_if _ _ (boxderrf no_error) _ _ refl
        (Carries-then _ _ _ _ _ (u8-Carries ssh laws 0xC5) (λ b. refl)))

  -- An input that the strict reader takes does not begin like one of the format before.
  strict_is_new :
      (first : ℕ) (input rest : Buf)
      → strict_magic (first ∷ input) ≡ ok tt rest
      → is_old (first ∷ input) ≡ false
  unfolding strict_magic take_from
  strict_is_new first input rest h =
      let (m0, b1, one, two) = bind_returns (take_from ssh.get_u8) _ (first ∷ input) tt rest h in
      let (u, b2, three, four) =
        bind_returns (fail_if (not (m0 == 0xB0)) (boxderrf no_error)) _ b1 tt rest two in
      let same =
        sym (take_from-some ssh.get_u8 (first ∷ input) first input (laws.u8_back first input))
        ∙ one in
      b0_is_new first m0 input b1 same
        (no_failure (not (m0 == 0xB0)) (boxderrf no_error) b1 b2 three)

  input_is_new :
      {P : Type 0} (input rest : Buf) (box : PivBox (SshKey EC) P)
      → (strict_magic >> get_fields ssh) input ≡ ok box rest
      → is_old input ≡ false
  input_is_new [] rest box h = refl
  input_is_new {P} (first ∷ input) rest box h =
      let (u, b1, one, two) =
        bind_returns strict_magic (λ _. get_fields ssh {P = P}) (first ∷ input) box rest h in
      strict_is_new first input b1 one

  -- A box of version 1 or 2 whose keys are valid points, when `piv_box_to_binary` returns bytes, is
  -- what `piv_box_from_binary` reads from all of them, in its `wire_form`: the first byte never
  -- looks like that of the format before.
  pub from-to_binary :
      {P : Type 0} (box : PivBox (SshKey EC) P) (pub_key ephem : SshKey EC) (out : List ℕ)
      → box.pdb_pub ≡ some pub_key
      → box.pdb_ephem_pub ≡ some ephem
      → box_v1 ≤ box.pdb_version
      → box.pdb_version < box_vnext
      → length box.pdb_guid ≡ 16
      → ssh.ec_validate_public pub_key.ecdsa_nid pub_key.ecdsa ≡ true
      → ssh.ec_validate_public ephem.ecdsa_nid ephem.ecdsa ≡ true
      → piv_box_to_binary ssh box ≡ ok out tt
      → piv_box_from_binary ssh out ≡ ok (wire_form box pub_key ephem) []
  unfolding piv_box_to_binary piv_box_from_binary Carries
  from-to_binary box pub_key ephem out has has2 low high full good good2 h =
      let put = whole_buffer_returns (sshbuf_put_piv_box ssh box []) out h in
      let (e, left, back) =
        sshbuf_put_piv_box-Carries ssh laws box pub_key ephem has has2 low high full good good2 []
          out put in
      let (e2, left2, back2) =
        put-Carries ssh laws strict_magic box pub_key ephem strict-Carries has has2 low high full
          good good2 [] out put in
      let new =
        input_is_new out [] _
          (ap (strict_magic >> get_fields ssh) (left2 ∙ sym (append-nil e2)) ∙ back2 []) in
      rw new (ap (sshbuf_get_piv_box ssh) (left ∙ sym (append-nil e)) ∙ back [])

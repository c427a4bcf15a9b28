-- ===== src/Box/Wire/RoundTrip.antt =====
-- What `sshbuf_put_piv_box` writes, `sshbuf_get_piv_box` reads back.
use pivy.Prelude.{ℕ, ◌≤◌, ◌<◌, ◌≡◌, sym, ◌∙◌, Bool, true, some, length, subst}
use pivy.Outcome.{M, ok, ◌>>=◌, ◌>>◌, bind-ok, bind_returns}
use pivy.Box.{PivBox, box_v1, box_vnext, non_null}
use pivy.Box.Wire.{
  SshKey, SshBuf, Buf, check_keys, put_magic, put_fields, sshbuf_put_piv_box, get_magic, get_fields,
  sshbuf_get_piv_box,
}
use pivy.Box.Wire.Carries.{Carries, Carries-bind}
use pivy.Box.Wire.Fields.{
  SshBufLaws, ec_key, wire_form, non_null-some, check_keys_lem, fields-Carries, magic-Carries,
}

module _ {EC : Type 0} (ssh : SshBuf EC) (laws : SshBufLaws ssh) where
  -- For any reader `magic` of the magic number.
  keys-Carries :
      {P : Type 0} (magic : M Buf (Unit {0})) (box : PivBox (SshKey EC) P) (c c2 : Bool)
      (nid nid2 : ℕ) (k k2 : EC)
      → Carries (put_magic ssh) magic tt
      → c ≡ true
      → c2 ≡ true
      → nid ≡ nid2
      → box_v1 ≤ box.pdb_version
      → box.pdb_version < box_vnext
      → length box.pdb_guid ≡ 16
      → ssh.ec_validate_public nid k ≡ true
      → ssh.ec_validate_public nid2 k2 ≡ true
      → Carries
          (put_magic ssh >> put_fields ssh box (ec_key c nid k) (ec_key c2 nid2 k2))
          (magic >> get_fields ssh)
          (wire_form box (ec_key c nid k) (ec_key c2 nid2 k2))
  keys-Carries magic box c c2 nid nid2 k k2 read e e2 en low high full good good2 =
      rw (e, e2, sym en)
        (Carries-bind _ _ _ _ tt _ read
          (fields-Carries ssh laws box nid k k2 low high full good (rw en good2)))

  pub put-Carries :
      {P : Type 0} (magic : M Buf (Unit {0})) (box : PivBox (SshKey EC) P)
      (pub_key ephem : SshKey EC)
      → Carries (put_magic ssh) magic tt
      → box.pdb_pub ≡ some pub_key
      → box.pdb_ephem_pub ≡ some ephem
      → box_v1 ≤ box.pdb_version
      → box.pdb_version < box_vnext
      → length box.pdb_guid ≡ 16
      → ssh.ec_validate_public pub_key.ecdsa_nid pub_key.ecdsa ≡ true
      → ssh.ec_validate_public ephem.ecdsa_nid ephem.ecdsa ≡ true
      → Carries (sshbuf_put_piv_box ssh box) (magic >> get_fields ssh) (wire_form box pub_key ephem)
  unfolding sshbuf_put_piv_box Carries
  put-Carries {P} magic box pub_key ephem read has has2 low high full good good2 b b' h =
      let then1 =
        sym (
          bind-ok (non_null box.pdb_pub)
            (λ pk. non_null box.pdb_ephem_pub >>= λ e.
              check_keys ssh pk e >> (put_magic ssh >> put_fields ssh box pk e))
            b pub_key b (non_null-some _ pub_key b has))
        ∙ h in
      let then2 =
        sym (
          bind-ok (non_null box.pdb_ephem_pub)
            (λ e. check_keys ssh pub_key e >> (put_magic ssh >> put_fields ssh box pub_key e)) b
            ephem b (non_null-some _ ephem b has2))
        ∙ then1 in
      let (u, b1, first, second) =
        bind_returns (check_keys ssh pub_key ephem)
          (λ _. put_magic ssh >> put_fields ssh box pub_key ephem) b tt b' then2 in
      let (c, c2, same, left) = check_keys_lem ssh pub_key ephem b b1 first in
      keys-Carries magic box pub_key.is_ecdsa ephem.is_ecdsa pub_key.ecdsa_nid ephem.ecdsa_nid
        pub_key.ecdsa ephem.ecdsa read c c2 same low high full good good2 b b'
        (subst (λ s. (put_magic ssh >> put_fields ssh box pub_key ephem) s ≡ ok tt b') left second)

  -- A box of version 1 or 2 whose keys are valid points, when `sshbuf_put_piv_box` appends it, is
  -- read back by `sshbuf_get_piv_box` from the front of any buffer, as `wire_form`: without the GUID
  -- and the slot if they were not set, and with the slot modulo 256.
  pub sshbuf_put_piv_box-Carries :
      {P : Type 0} (box : PivBox (SshKey EC) P) (pub_key ephem : SshKey EC)
      → box.pdb_pub ≡ some pub_key
      → box.pdb_ephem_pub ≡ some ephem
      → box_v1 ≤ box.pdb_version
      → box.pdb_version < box_vnext
      → length box.pdb_guid ≡ 16
      → ssh.ec_validate_public pub_key.ecdsa_nid pub_key.ecdsa ≡ true
      → ssh.ec_validate_public ephem.ecdsa_nid ephem.ecdsa ≡ true
      → Carries (sshbuf_put_piv_box ssh box) (sshbuf_get_piv_box ssh) (wire_form box pub_key ephem)
  unfolding sshbuf_get_piv_box
  sshbuf_put_piv_box-Carries box pub_key ephem =
      put-Carries (get_magic ssh) box pub_key ephem (magic-Carries ssh laws)

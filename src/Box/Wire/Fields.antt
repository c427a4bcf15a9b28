-- ===== src/Box/Wire/Fields.antt =====
-- What the writer of a PIV box appends, field by field, its reader takes back.
use pivy.Prelude.{
  ℕ, ◌≤◌, ◌<◌, ◌≡◌, inl, inr, refl, List, [], ◌∷◌, ◌++◌, Bool, true, false, Bool-cases, Option,
  none, some, String, length, take, replicate, leb, ◌==◌, if◌then◌else◌, arith, low_bits, subst,
}
use pivy.Outcome.{Outcome, ok, ◌>>=◌, ◌>>◌, bind_returns, verify}
use pivy.Apdu.{ApduBuf, empty_buf, slice}
use pivy.Box.{
  PivBox, piv_box_new, or_default, full_buf, box_v1, box_v2, box_vnext, non_null, is_null,
}
use pivy.Box.Wire.{
  SshKey, SshBuf, Buf, append_to, take_from, memory, check_keys, put_magic, put_guidslot, put_nonce,
  put_curve, put_name, put_bytes8, put_bytes32, put_fields, get_magic, get_version, get_guidslot,
  get_nonce, known_curve, get_curve, get_key, get_fields,
}
use pivy.Box.Wire.Carries.{
  Carries, Appends, append_to-Carries, Carries-bind, Carries-then, Carries-silent, Carries-fail_if,
  Carries-abort,
}

-- What the code relies on of libssh: bytes are appended and taken off the front, and so is what
-- the other calls write. A curve that has a name is found by it.
pub record SshBufLaws {EC : Type 0} (ssh : SshBuf EC) : Type 0 where
  pub u8 : (v : ℕ) (b b' : Buf) → ssh.put_u8 v b ≡ some b' → b' ≡ b ++ (v ∷ [])
  pub u8_back : (v : ℕ) (rest : Buf) → ssh.get_u8 (v ∷ rest) ≡ some (v, rest)
  pub string8_empty : (rest : Buf) → ssh.get_string8 (0 ∷ rest) ≡ some ([], rest)
  pub string8 : (v : List ℕ) → Appends (ssh.put_string8 v) ssh.get_string8 v
  pub cstring8 : (v : String) → Appends (ssh.put_cstring8 v) ssh.get_cstring8 v
  pub string : (v : List ℕ) → Appends (ssh.put_string v) ssh.get_string v
  pub eckey8 :
      (nid : ℕ) (k : EC)
      → ssh.ec_validate_public nid k ≡ true
      → Appends (ssh.put_eckey8 k) (ssh.get_eckey8 nid) k
  pub curve :
      (nid : ℕ) (name : String)
      → ssh.curve_nid_to_name nid ≡ some name
      → ssh.curve_name_to_nid name ≡ some nid

abbrev pub ec_key : {EC : Type 0} → Bool → ℕ → EC → SshKey EC
ec_key c nid k = record { is_ecdsa = c; ecdsa_nid = nid; ecdsa = k }

-- The `b_len` bytes that a buffer is written as.
abbrev pub contents : ApduBuf → List ℕ
contents r = elim r.b_data [ none ↦ [] | some bytes ↦ take r.b_len bytes ]

memory_lem :
    (r : ApduBuf) (b b' : Buf) (v : List ℕ) → memory r b ≡ ok v b' → (v ≡ contents r) × (b' ≡ b)
unfolding memory slice
memory_lem r b b' v h = ground arith

pub non_null-some :
    {A : Type 0} (o : Option A) (a : A) (b : Buf) → o ≡ some a → non_null o b ≡ ok a b
unfolding non_null
non_null-some o a b h = rw h refl

pub check_keys_lem :
    {EC : Type 0} (ssh : SshBuf EC) (pub_key ephem : SshKey EC) (b b' : Buf)
    → check_keys ssh pub_key ephem b ≡ ok tt b'
    → (pub_key.is_ecdsa ≡ true)
      × (ephem.is_ecdsa ≡ true)
      × (pub_key.ecdsa_nid ≡ ephem.ecdsa_nid)
      × (b' ≡ b)
unfolding check_keys
check_keys_lem ssh pub_key ephem b b' h = ground arith

verify_returns : (b c : Bool) (s s' : Buf) → (verify b >> verify c) s ≡ ok tt s' → s' ≡ s
verify_returns true true s s' h = cc h
verify_returns true false s s' h = absurd (cc h)
verify_returns false c s s' h = absurd (cc h)

-- The GUID, the slot and the nonce as the reader has them.
abbrev pub sent_guidslot : Bool → List ℕ → ℕ → Bool × List ℕ × ℕ
sent_guidslot valid guid slot =
    if valid then (true, guid, low_bits slot 8) else (false, replicate 16 0, 0)

abbrev pub sent_nonce : ℕ → ApduBuf → ApduBuf
sent_nonce ver r = if leb box_v2 ver then full_buf (contents r) else empty_buf

-- What a box is read back as.
abbrev pub wire_form :
    {EC P : Type 0} → PivBox (SshKey EC) P → SshKey EC → SshKey EC → PivBox (SshKey EC) P
wire_form {EC} {P} box pub_key ephem = record (piv_box_new {K = SshKey EC} {P = P}) {
  pdb_version = box.pdb_version;
  pdb_guidslot_valid = (sent_guidslot box.pdb_guidslot_valid box.pdb_guid box.pdb_slot).0;
  pdb_guid = (sent_guidslot box.pdb_guidslot_valid box.pdb_guid box.pdb_slot).1;
  pdb_slot = (sent_guidslot box.pdb_guidslot_valid box.pdb_guid box.pdb_slot).2;
  pdb_cipher = some (or_default box.pdb_cipher "");
  pdb_kdf = some (or_default box.pdb_kdf "");
  pdb_nonce = sent_nonce box.pdb_version box.pdb_nonce;
  pdb_pub = some pub_key;
  pdb_ephem_pub = some ephem;
  pdb_iv = full_buf (contents box.pdb_iv);
  pdb_enc = full_buf (contents box.pdb_enc);
}

module _ {EC : Type 0} (ssh : SshBuf EC) (laws : SshBufLaws ssh) where
  open laws use {u8, u8_back, string8_empty, string8, cstring8, string, eckey8, curve}

  pub u8-Carries : (v : ℕ) → Carries (append_to (ssh.put_u8 v)) (take_from ssh.get_u8) v
  u8-Carries v =
      append_to-Carries (ssh.put_u8 v) ssh.get_u8 v
        (λ b b' h. (v ∷ [], u8 v b b' h, λ rest. u8_back v rest))

  empty8-Carries : Carries (append_to (ssh.put_u8 0)) (take_from ssh.get_string8) []
  empty8-Carries =
      append_to-Carries (ssh.put_u8 0) ssh.get_string8 []
        (λ b b' h. (0 ∷ [], u8 0 b b' h, λ rest. string8_empty rest))

  pub magic-Carries : Carries (put_magic ssh) (get_magic ssh) tt
  unfolding put_magic get_magic
  magic-Carries = Carries-bind _ _ _ _ 0xB0 tt (u8-Carries 0xB0) (
      Carries-then (append_to (ssh.put_u8 0xC5)) (take_from ssh.get_u8) _ 0xC5 tt (u8-Carries 0xC5)
        (λ b. refl))

  version-Carries :
      (ver : ℕ)
      → box_v1 ≤ ver
      → ver < box_vnext
      → Carries (append_to (ssh.put_u8 ver)) (get_version ssh) ver
  unfolding get_version
  version-Carries ver low high =
      Carries-then (append_to (ssh.put_u8 ver)) (take_from ssh.get_u8) _ ver ver (u8-Carries ver)
        (λ b. ground arith)

  guidslot-Carries :
      (valid : Bool) (guid : List ℕ) (slot : ℕ)
      → length guid ≡ 16
      → Carries
          (put_guidslot ssh valid guid slot)
          (get_guidslot ssh)
          (sent_guidslot valid guid slot)
  unfolding put_guidslot get_guidslot
  guidslot-Carries true guid slot full = Carries-bind _ _ _ _ 1 _ (u8-Carries 1) (
      Carries-bind _ _ _ _ guid _ (append_to-Carries _ _ guid (string8 guid)) (
        Carries-fail_if _ _ _ _ _ (ground arith)
          (Carries-then _ _ _ _ _ (u8-Carries (low_bits slot 8)) (λ b. refl))))
  guidslot-Carries false guid slot full =
      Carries-bind _ _ _ _ 0 _ (u8-Carries 0) (
        Carries-bind _ _ _ _ [] _ empty8-Carries
          (Carries-then _ _ _ _ _ (u8-Carries 0) (λ b. refl)))

  name-Carries :
      (name : Option String)
      → Carries (put_name ssh name) (take_from ssh.get_cstring8) (or_default name "")
  unfolding put_name
  name-Carries name = append_to-Carries _ _ _ (cstring8 (or_default name ""))

  -- The bytes of a buffer, behind any length.
  bytes-Carries :
      (put : List ℕ → Buf → Option Buf) (take_back : Buf → Option (List ℕ × Buf)) (r : ApduBuf)
      → Appends (put (contents r)) take_back (contents r)
      → Carries (memory r >>= λ bytes. append_to (put bytes)) (take_from take_back) (contents r)
  unfolding Carries
  bytes-Carries put take_back r law b b' h =
      let (bytes, b1, first, second) =
        bind_returns (memory r) (λ bytes. append_to (put bytes)) b tt b' h in
      let (same, left) = memory_lem r b b1 bytes first in
      append_to-Carries (put (contents r)) take_back (contents r) law b b' (
        subst (λ v. append_to (put v) b ≡ ok tt b') same
          (subst (λ c. append_to (put bytes) c ≡ ok tt b') left second))

  nonce-Carries :
      (ver : ℕ) (r : ApduBuf) → Carries (put_nonce ssh ver r) (get_nonce ssh ver) (sent_nonce ver r)
  unfolding put_nonce get_nonce
  nonce-Carries ver r = elim (Bool-cases (leb box_v2 ver)) [
    | inl new ↦ rw new (
        Carries-then _ _ _ _ _ (bytes-Carries ssh.put_string8 ssh.get_string8 r (string8 _))
          (λ b. refl))
    | inr old ↦ rw old (
        Carries-silent _ _ _ (λ b b' h. verify_returns (r.b_len == 0) (is_null r) b b' h)
          (λ b. refl))
  ]

  curve-Carries : (nid : ℕ) → Carries (put_curve ssh nid) (get_curve ssh) nid
  unfolding put_curve get_curve known_curve
  curve-Carries nid = go (ssh.curve_nid_to_name nid) refl
    where
      go :
          (o : Option String)
          → ssh.curve_nid_to_name nid ≡ o
          → Carries
              (elim o [ none ↦ λ b. Outcome.abort | some name ↦ append_to (ssh.put_cstring8 name) ])
              (get_curve ssh)
              nid
      go none e = Carries-abort (get_curve ssh) nid
      go (some name) e =
          unfold get_curve in
          Carries-then _ _ _ _ _ (append_to-Carries _ _ name (cstring8 name))
            (λ b. unfold known_curve in rw (curve nid name e) refl)

  key-Carries :
      (nid : ℕ) (k : EC)
      → ssh.ec_validate_public nid k ≡ true
      → Carries (append_to (ssh.put_eckey8 k)) (get_key ssh nid) (ec_key true nid k)
  unfolding get_key
  key-Carries nid k good =
      Carries-then _ _ _ k _ (append_to-Carries _ _ k (eckey8 nid k good)) (λ b. rw good refl)

  pub fields-Carries :
      {P : Type 0} (box : PivBox (SshKey EC) P) (nid : ℕ) (k k2 : EC)
      → box_v1 ≤ box.pdb_version
      → box.pdb_version < box_vnext
      → length box.pdb_guid ≡ 16
      → ssh.ec_validate_public nid k ≡ true
      → ssh.ec_validate_public nid k2 ≡ true
      → Carries
          (put_fields ssh box (ec_key true nid k) (ec_key true nid k2))
          (get_fields ssh)
          (wire_form box (ec_key true nid k) (ec_key true nid k2))
  unfolding put_fields get_fields put_bytes8 put_bytes32
  fields-Carries box nid k k2 low high full good good2 =
      (Carries-bind _ _ _ _ box.pdb_version _ (version-Carries box.pdb_version low high) (
        Carries-bind _ _ _ _ _ _
          (guidslot-Carries box.pdb_guidslot_valid box.pdb_guid box.pdb_slot full)
          (Carries-bind _ _ _ _ _ _ (name-Carries box.pdb_cipher) (
            Carries-bind _ _ _ _ _ _ (name-Carries box.pdb_kdf) (
              Carries-bind _ _ _ _ _ _ (nonce-Carries box.pdb_version box.pdb_nonce) (
                Carries-bind _ _ _ _ nid _ (curve-Carries nid) (
                  Carries-bind _ _ _ _ _ _ (key-Carries nid k good) (
                    Carries-bind _ _ _ _ _ _ (key-Carries nid k2 good2) (
                      Carries-bind _ _ _ _ _ _
                        (bytes-Carries ssh.put_string8 ssh.get_string8 box.pdb_iv (string8 _))
                        (Carries-then _ _ _ _ _
                          (bytes-Carries ssh.put_string ssh.get_string box.pdb_enc (string _))
                          (λ b. refl)))))))))))

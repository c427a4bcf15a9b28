-- ===== src/Box.antt =====
-- piv.c: PIV boxes (`struct piv_ecdh_box`), the state of a box and its accessors.
pub mod Wire
pub mod Binary
pub mod Seal
pub mod Tests
use pivy.Prelude.{
  ℕ, ◌+◌, ◌-◌, List, [], ◌∷◌, Bool, true, false, not, ◌&&◌, Option, none, some, String, length,
  take, drop, replicate, ltb, leb, ◌==◌, if◌then◌else◌,
}
use pivy.Errf.{Errf, errf, no_error}
use pivy.Outcome.{M, ok, err, abort, fault, ◌>>=◌, ◌>>◌, pure, verify, get, put, fail}
use pivy.Apdu.{ApduBuf, empty_buf, slice}

-- `struct piv_ecdh_box`, for any type `K` of public keys and `P` of private ones.
pub record PivBox (K P : Type 0) : Type 0 where
  pub pdb_version : ℕ
  pub pdb_guidslot_valid : Bool
  pub pdb_guid : List ℕ
  pub pdb_slot : ℕ
  pub pdb_ephem_pub : Option K
  pub pdb_pub : Option K
  pub pdb_cipher : Option String
  pub pdb_kdf : Option String
  pub pdb_nonce : ApduBuf
  pub pdb_iv : ApduBuf
  pub pdb_enc : ApduBuf
  pub pdb_plain : ApduBuf
  pub pdb_ephem : Option P

abbrev pub box_v1 : ℕ
box_v1 = 1

abbrev pub box_v2 : ℕ
box_v2 = 2

abbrev pub box_vnext : ℕ
box_vnext = 3

abbrev pub default_cipher : String
default_cipher = "chacha20-poly1305"

abbrev pub default_kdf : String
default_kdf = "sha512"

abbrev pub boxderrf : Errf → Errf
boxderrf cause = errf "InvalidDataError" cause

abbrev pub boxverrf : Errf → Errf
boxverrf cause = errf "NotSupportedError" cause

abbrev pub boxaerrf : Errf → Errf
boxaerrf cause = errf "ArgumentError" cause

-- Memory that holds just `bytes`.
abbrev pub full_buf : List ℕ → ApduBuf
full_buf bytes = record {
  b_data = some bytes;
  b_size = length bytes;
  b_offset = 0;
  b_len = length bytes;
}

-- The bytes that a buffer stands for, from its memory; NULL stands for no bytes.
unfoldable pub buf_slice : {S : Type 0} → ApduBuf → M S (List ℕ)
buf_slice r s = elim r.b_data [
  | none ↦ if r.b_len == 0 then ok [] s else fault
  | some memory ↦ elim (slice memory r.b_offset r.b_len) [ none ↦ fault | some bytes ↦ ok bytes s ]
]

-- A pointer that is followed.
unfoldable pub non_null : {S A : Type 0} → Option A → M S A
non_null none s = fault
non_null (some a) s = ok a s

-- VERIFYB.
unfoldable pub verifyb : {S : Type 0} → ApduBuf → M S (Unit {0})
verifyb r s = elim r.b_data [
  | none ↦ abort
  | some memory ↦ verify (leb r.b_len r.b_size && leb (r.b_offset + r.b_len) r.b_size) s
]

unfoldable pub piv_box_new : {K P : Type 0} → PivBox K P
piv_box_new = record {
  pdb_version = box_vnext - 1;
  pdb_guidslot_valid = false;
  pdb_guid = replicate 16 0;
  pdb_slot = 0;
  pdb_ephem_pub = none;
  pdb_pub = none;
  pdb_cipher = none;
  pdb_kdf = none;
  pdb_nonce = empty_buf;
  pdb_iv = empty_buf;
  pdb_enc = empty_buf;
  pdb_plain = empty_buf;
  pdb_ephem = none;
}

-- A copy of a buffer that has bytes; else the buffer stays as `calloc` made it.
unfoldable pub clone_buf : {S : Type 0} → ApduBuf → M S ApduBuf
clone_buf r =
    if ltb 0 r.b_len then (do bytes ← buf_slice r; pure (full_buf bytes)) else pure empty_buf

-- `demote` is `sshkey_demote`, which copies the public part of a key, or fails; it follows the
-- pointer that it is given.
unfoldable pub clone_key : {K : Type 0} → {S : Type 0} → (K → Option K) → Option K → M S (Option K)
clone_key demote key = do k ← non_null key; pure (demote k)

-- A part of the copy that fails makes the copy NULL.
unfoldable pub clone_bufs : {K P S : Type 0} → PivBox K P → K → Option K → M S (Option (PivBox K P))
clone_bufs box ephem none = pure none
clone_bufs box ephem (some pub_key) = do
  nonce ← clone_buf box.pdb_nonce
  iv ← clone_buf box.pdb_iv
  enc ← clone_buf box.pdb_enc
  plain ← clone_buf box.pdb_plain
  pure (
      some (record {
        pdb_version = box.pdb_version;
        pdb_guidslot_valid = box.pdb_guidslot_valid;
        pdb_guid = if box.pdb_guidslot_valid then box.pdb_guid else replicate 16 0;
        pdb_slot = if box.pdb_guidslot_valid then box.pdb_slot else 0;
        pdb_ephem_pub = some ephem;
        pdb_pub = some pub_key;
        pdb_cipher = box.pdb_cipher;
        pdb_kdf = box.pdb_kdf;
        pdb_nonce = nonce;
        pdb_iv = iv;
        pdb_enc = enc;
        pdb_plain = plain;
        pdb_ephem = none;
      }))

unfoldable pub clone_pub :
    {K P S : Type 0} → (K → Option K) → PivBox K P → Option K → M S (Option (PivBox K P))
clone_pub demote box none = pure none
clone_pub demote box (some ephem) = do
  pub_key ← clone_key demote box.pdb_pub
  clone_bufs box ephem pub_key

unfoldable pub piv_box_clone :
    {K P S : Type 0} → (K → Option K) → PivBox K P → M S (Option (PivBox K P))
piv_box_clone demote box = do ephem ← clone_key demote box.pdb_ephem_pub; clone_pub demote box ephem

abbrev pub is_null : ApduBuf → Bool
is_null r = elim r.b_data [ none ↦ true | some memory ↦ false ]

unfoldable pub piv_box_set_data : {K P : Type 0} → List ℕ → M (PivBox K P) (Unit {0})
piv_box_set_data bytes = do
  box ← get
  verify (is_null box.pdb_plain)
  put (record box { pdb_plain = full_buf bytes })

-- The data of an open box, which is taken out of it.
unfoldable pub piv_box_take_data : {K P : Type 0} → M (PivBox K P) (List ℕ)
piv_box_take_data = do
  box ← get
  (if is_null box.pdb_plain then fail (errf "BoxSealed" no_error) else pure tt)
  bytes ← buf_slice box.pdb_plain
  put (record box { pdb_plain = empty_buf })
  pure bytes

unfoldable pub piv_box_sealed : {K P : Type 0} → PivBox K P → Bool
piv_box_sealed box = is_null box.pdb_plain

unfoldable pub piv_box_guid : {K P : Type 0} → M (PivBox K P) (List ℕ)
piv_box_guid = do box ← get; verify box.pdb_guidslot_valid; pure box.pdb_guid

unfoldable pub piv_box_slot : {K P : Type 0} → M (PivBox K P) ℕ
piv_box_slot = do box ← get; verify box.pdb_guidslot_valid; pure box.pdb_slot

unfoldable pub piv_box_set_guid : {K P : Type 0} → List ℕ → M (PivBox K P) (Unit {0})
piv_box_set_guid guid = do
  verify (length guid == 16)
  box ← get
  put (record box { pdb_guid = guid; pdb_guidslot_valid = true })

unfoldable pub piv_box_set_slot : {K P : Type 0} → ℕ → PivBox K P → PivBox K P
piv_box_set_slot slot box = record box { pdb_slot = slot; pdb_guidslot_valid = true }

abbrev pub or_default : Option String → String → String
or_default none d = d
or_default (some name) d = name

unfoldable pub piv_box_cipher : {K P : Type 0} → PivBox K P → String
piv_box_cipher box = or_default box.pdb_cipher default_cipher

unfoldable pub piv_box_kdf : {K P : Type 0} → PivBox K P → String
piv_box_kdf box = or_default box.pdb_kdf default_kdf

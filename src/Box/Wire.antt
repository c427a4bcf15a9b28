-- ===== src/Box/Wire.antt =====
-- piv.c: a PIV box as bytes, `sshbuf_put_piv_box` and `sshbuf_get_piv_box`.
pub mod Carries
pub mod Fields
pub mod WellFormed
pub mod RoundTrip
use pivy.Prelude.{
  ℕ, ◌+◌, ◌-◌, ◌*◌, ◌/◌, ◌%◌, ◌^◌, List, [], ◌∷◌, ◌++◌, Bool, true, false, not, ◌&&◌, ◌||◌, Option,
  none, some, String, ◌≡◌, length, replicate, ltb, leb, ◌==◌, if◌then◌else◌, low_bits,
}
use pivy.Errf.{Errf, errf, no_error}
use pivy.Outcome.{Outcome, M, ok, err, fault, ◌>>=◌, ◌>>◌, pure, verify, fail_if, fail}
use pivy.Apdu.{ApduBuf, empty_buf, slice, argerrf}
use pivy.Box.{
  PivBox, or_default, piv_box_new, full_buf, non_null, boxderrf, boxverrf, is_null, box_v1, box_v2,
  box_vnext,
}

-- `struct sshkey`: whether it is an ECDSA key, its curve, and the point. The last two are those of
-- an ECDSA key: for a key of another type `ecdsa` is NULL, and is no value to read. Code that has
-- not tested `is_ecdsa` reads it by `ec_of`.
pub record SshKey (EC : Type 0) : Type 0 where
  pub is_ecdsa : Bool
  pub ecdsa_nid : ℕ
  pub ecdsa : EC

-- The calls of libssh. A `struct sshbuf` is the bytes that are left to read; a call that fails is
-- `none`.
pub record SshBuf (EC : Type 0) : Type 0 where
  pub put_u8 : ℕ → List ℕ → Option (List ℕ)
  pub get_u8 : List ℕ → Option (ℕ × List ℕ)
  pub put_string8 : List ℕ → List ℕ → Option (List ℕ)
  pub get_string8 : List ℕ → Option (List ℕ × List ℕ)
  pub put_cstring8 : String → List ℕ → Option (List ℕ)
  pub get_cstring8 : List ℕ → Option (String × List ℕ)
  pub put_string : List ℕ → List ℕ → Option (List ℕ)
  pub get_string : List ℕ → Option (List ℕ × List ℕ)
  pub get_cstring : List ℕ → Option (String × List ℕ)
  pub get_stringb : List ℕ → Option (List ℕ × List ℕ)
  pub put_eckey8 : EC → List ℕ → Option (List ℕ)
  pub get_eckey8 : ℕ → List ℕ → Option (EC × List ℕ)
  pub sshkey_fromb : List ℕ → Option (SshKey EC)
  pub curve_nid_to_name : ℕ → Option String
  pub curve_name_to_nid : String → Option ℕ
  pub ec_validate_public : ℕ → EC → Bool

-- `key->ecdsa`, where the type of the key has not been tested.
unfoldable pub ec_of : {S EC : Type 0} → SshKey EC → M S EC
ec_of key s = if key.is_ecdsa then ok key.ecdsa s else fault

abbrev pub Buf : Type 0
Buf = List ℕ

abbrev pub ssherrf : Errf
ssherrf = errf "LibsshError" no_error

-- A call that appends, and a call that takes what it returns off the front.
unfoldable pub append_to : (List ℕ → Option (List ℕ)) → M Buf (Unit {0})
append_to f b = elim (f b) [ none ↦ err ssherrf b | some b' ↦ ok tt b' ]

unfoldable pub take_from : {A : Type 0} → (List ℕ → Option (A × List ℕ)) → M Buf A
take_from f b = elim (f b) [ none ↦ err (boxderrf ssherrf) b | some (a, b') ↦ ok a b' ]

-- `b_len` bytes from the start of the memory of a buffer.
unfoldable pub memory : {S : Type 0} → ApduBuf → M S (List ℕ)
memory r s = elim r.b_data [
  | none ↦ if r.b_len == 0 then ok [] s else fault
  | some bytes ↦ elim (slice bytes 0 r.b_len) [ none ↦ fault | some front ↦ ok front s ]
]

module _ {EC : Type 0} (ssh : SshBuf EC) where
  open ssh use {
    put_u8, get_u8, put_string8, get_string8, put_cstring8, get_cstring8, put_string, get_string,
    put_eckey8, get_eckey8, curve_nid_to_name, curve_name_to_nid, ec_validate_public,
  }

  -- The checks of the keys.
  unfoldable pub check_keys : SshKey EC → SshKey EC → M Buf (Unit {0})
  check_keys pub_key ephem = do
    fail_if (not pub_key.is_ecdsa || not ephem.is_ecdsa) argerrf
    fail_if (not (pub_key.ecdsa_nid == ephem.ecdsa_nid)) argerrf

  unfoldable pub put_magic : M Buf (Unit {0})
  put_magic = do append_to (put_u8 0xB0); append_to (put_u8 0xC5)

  unfoldable pub put_guidslot : Bool → List ℕ → ℕ → M Buf (Unit {0})
  put_guidslot valid guid slot =
      if valid
      then (do
        append_to (put_u8 0x01)
        append_to (put_string8 guid)
        append_to (put_u8 (low_bits slot 8)))
      else (do append_to (put_u8 0x00); append_to (put_u8 0x00); append_to (put_u8 0x00))

  unfoldable pub put_nonce : ℕ → ApduBuf → M Buf (Unit {0})
  put_nonce ver nonce =
      if leb box_v2 ver
      then (do bytes ← memory nonce; append_to (put_string8 bytes))
      else (do verify (nonce.b_len == 0); verify (is_null nonce))

  unfoldable pub put_curve : ℕ → M Buf (Unit {0})
  put_curve nid = elim (curve_nid_to_name nid) [
    | none ↦ λ b. Outcome.abort
    | some name ↦ append_to (put_cstring8 name)
  ]

  -- `sshbuf_put_cstring8` writes NULL as the empty string.
  unfoldable pub put_name : Option String → M Buf (Unit {0})
  put_name name = append_to (put_cstring8 (or_default name ""))

  unfoldable pub put_bytes8 : ApduBuf → M Buf (Unit {0})
  put_bytes8 r = do bytes ← memory r; append_to (put_string8 bytes)

  unfoldable pub put_bytes32 : ApduBuf → M Buf (Unit {0})
  put_bytes32 r = do bytes ← memory r; append_to (put_string bytes)

  -- What stands behind the magic number.
  unfoldable pub put_fields :
      {P : Type 0} → PivBox (SshKey EC) P → SshKey EC → SshKey EC → M Buf (Unit {0})
  put_fields box pub_key ephem = do
    append_to (put_u8 box.pdb_version)
    put_guidslot box.pdb_guidslot_valid box.pdb_guid box.pdb_slot
    put_name box.pdb_cipher
    put_name box.pdb_kdf
    put_nonce box.pdb_version box.pdb_nonce
    put_curve pub_key.ecdsa_nid
    append_to (put_eckey8 pub_key.ecdsa)
    append_to (put_eckey8 ephem.ecdsa)
    put_bytes8 box.pdb_iv
    put_bytes32 box.pdb_enc

  unfoldable pub sshbuf_put_piv_box : {P : Type 0} → PivBox (SshKey EC) P → M Buf (Unit {0})
  sshbuf_put_piv_box box = do
    pub_key ← non_null box.pdb_pub
    ephem ← non_null box.pdb_ephem_pub
    check_keys pub_key ephem
    put_magic
    put_fields box pub_key ephem

  unfoldable pub get_magic : M Buf (Unit {0})
  get_magic = do
    magic0 ← take_from get_u8
    magic1 ← take_from get_u8
    fail_if (not (magic0 == 0xB0) && not (magic1 == 0xC5)) (boxderrf (errf "MagicError" no_error))

  unfoldable pub get_version : M Buf ℕ
  get_version = do
    ver ← take_from get_u8
    fail_if (ltb ver box_v1 || leb box_vnext ver) (boxverrf (errf "VersionError" no_error))
    pure ver

  -- `pdb_guidslot_valid`, `pdb_guid` and `pdb_slot`, which `calloc` had set to zeros.
  unfoldable pub get_guidslot : M Buf (Bool × List ℕ × ℕ)
  get_guidslot = do
    temp ← take_from get_u8
    guid ← take_from get_string8
    fail_if (not (temp == 0x00) && not (length guid == 16)) (boxderrf (errf "LengthError" no_error))
    slot ← take_from get_u8
    pure (if temp == 0x00 then (false, replicate 16 0, 0) else (true, guid, slot))

  unfoldable pub get_nonce : ℕ → M Buf ApduBuf
  get_nonce ver =
      if leb box_v2 ver
      then (do bytes ← take_from get_string8; pure (full_buf bytes))
      else pure empty_buf

  unfoldable pub known_curve : Option ℕ → M Buf ℕ
  known_curve none = fail (boxverrf (errf "CurveError" no_error))
  known_curve (some nid) = pure nid

  unfoldable pub get_curve : M Buf ℕ
  get_curve = do tname ← take_from get_cstring8; known_curve (curve_name_to_nid tname)

  unfoldable pub get_key : ℕ → M Buf (SshKey EC)
  get_key nid = do
    k ← take_from (get_eckey8 nid)
    fail_if (not (ec_validate_public nid k)) (boxderrf ssherrf)
    pure (record { is_ecdsa = true; ecdsa_nid = nid; ecdsa = k })

  unfoldable pub get_fields : {P : Type 0} → M Buf (PivBox (SshKey EC) P)
  get_fields {P} = do
    ver ← get_version
    (valid, guid, slot) ← get_guidslot
    cipher ← take_from get_cstring8
    kdf ← take_from get_cstring8
    nonce ← get_nonce ver
    nid ← get_curve
    pub_key ← get_key nid
    ephem ← get_key nid
    iv ← take_from get_string8
    enc ← take_from get_string
    pure (record (piv_box_new {K = SshKey EC} {P = P}) {
      pdb_version = ver;
      pdb_guidslot_valid = valid;
      pdb_guid = guid;
      pdb_slot = slot;
      pdb_cipher = some cipher;
      pdb_kdf = some kdf;
      pdb_nonce = nonce;
      pdb_pub = some pub_key;
      pdb_ephem_pub = some ephem;
      pdb_iv = full_buf iv;
      pdb_enc = full_buf enc;
    })

  unfoldable pub sshbuf_get_piv_box : {P : Type 0} → M Buf (PivBox (SshKey EC) P)
  sshbuf_get_piv_box = do get_magic; get_fields

-- ===== src/Box/Binary.antt =====
-- piv.c: a PIV box as a whole string of bytes, and the boxes of the format before.
pub mod RoundTrip
pub mod Versions
use pivy.Prelude.{
  ℕ, ◌-◌, List, [], ◌∷◌, Bool, true, false, not, ◌&&◌, Option, none, some, String, length, ltb,
  ◌==◌, if◌then◌else◌,
}
use pivy.Errf.{Errf, errf, no_error}
use pivy.Outcome.{Outcome, M, ok, err, abort, fault, stuck, ◌>>=◌, ◌>>◌, pure, fail_if}
use pivy.Box.{PivBox, piv_box_new, full_buf, boxderrf}
use pivy.Box.Wire.{SshKey, SshBuf, Buf, sshbuf_put_piv_box, sshbuf_get_piv_box}

-- The name of `errfno` is that of the number.
abbrev pub einval : Errf
einval = errf "EINVAL" no_error

abbrev pub enotsup : Errf
enotsup = errf "ENOTSUP" no_error

-- A call that takes what it returns off the front; its failure is EINVAL.
unfoldable pub take_old : {A : Type 0} → (List ℕ → Option (A × List ℕ)) → M Buf A
take_old f b = elim (f b) [ none ↦ err (boxderrf einval) b | some (a, b') ↦ ok a b' ]

-- The bytes in the buffer, which is freed.
unfoldable pub whole_buffer : Outcome Buf (Unit {0}) → Outcome (Unit {0}) (List ℕ)
whole_buffer (ok u b) = ok b tt
whole_buffer (err e b) = err e tt
whole_buffer abort = abort
whole_buffer fault = fault
whole_buffer stuck = stuck

-- `inplen > 1 && *input == 0x01`.
abbrev pub is_old : List ℕ → Bool
is_old [] = false
is_old (first ∷ input) = ltb 0 (length input) && first == 0x01

module _ {EC : Type 0} (ssh : SshBuf EC) where
  open ssh use {get_u8, get_string, get_cstring, get_stringb, sshkey_fromb}

  unfoldable pub piv_box_to_binary :
      {P : Type 0} → PivBox (SshKey EC) P → Outcome (Unit {0}) (List ℕ)
  piv_box_to_binary box = whole_buffer (sshbuf_put_piv_box ssh box [])

  -- A key in a string of its own.
  unfoldable pub old_key : M Buf (SshKey EC)
  old_key = do
    kbuf ← take_old get_stringb
    key ← take_old (λ b. elim (sshkey_fromb kbuf) [ none ↦ none | some k ↦ some (k, b) ])
    pure key

  unfoldable pub old_guid : M Buf (List ℕ)
  old_guid = do
    tmp ← take_old get_string
    fail_if (not (length tmp == 16)) (boxderrf einval)
    pure tmp

  -- The box comes from `calloc`, so its version is 0.
  unfoldable pub piv_box_read_old_v1 : {P : Type 0} → M Buf (PivBox (SshKey EC) P)
  piv_box_read_old_v1 {P} = do
    ver ← take_old get_u8
    fail_if (not (ver == 1)) (boxderrf enotsup)
    guid ← old_guid
    slot ← take_old get_u8
    ephem ← old_key
    pub_key ← old_key
    cipher ← take_old get_cstring
    kdf ← take_old get_cstring
    iv ← take_old get_string
    enc ← take_old get_string
    pure (record (piv_box_new {K = SshKey EC} {P = P}) {
      pdb_version = 0;
      pdb_guid = guid;
      pdb_slot = slot;
      pdb_ephem_pub = some ephem;
      pdb_pub = some pub_key;
      pdb_cipher = some cipher;
      pdb_kdf = some kdf;
      pdb_iv = full_buf iv;
      pdb_enc = full_buf enc;
    })

  unfoldable pub piv_box_from_binary : {P : Type 0} → M Buf (PivBox (SshKey EC) P)
  piv_box_from_binary input =
      if is_old input then piv_box_read_old_v1 input else sshbuf_get_piv_box ssh input

-- ===== src/Ecdh.antt =====
-- piv.c: an ECDH with a key on the card, and opening a PIV box with it.
pub mod Opens
pub mod Sealed
pub mod Secret
pub mod Tests
use pivy.Prelude.{
  ℕ, ◌+◌, ◌-◌, List, [], ◌∷◌, Bool, true, false, not, Option, none, some, length, take, drop, zero,
  suc, get_elem?, ltb, sub_size, ◌++◌, ◌||◌, ◌==◌, if◌then◌else◌,
}
use pivy.Errf.{Errf, errf, no_error}
use pivy.Outcome.{Outcome, M, ok, err, abort, fault, stuck, ◌>>=◌, ◌>>◌, pure, verify, fail_if, put}
use pivy.Tlv.{TlvState, Tlv, tlv_init_write, tlv_len}
use pivy.Tlv.Read.{tlv_read_tag, tlv_read_alloc, tlv_end}
use pivy.Tlv.Write.{tlv_push, tlv_pushl, tlv_write, tlv_pop}
use pivy.Apdu.{
  Apdu, piv_apdu_make, cla_iso, ins_gen_auth, swerrf, permerrf, tagerrf,
  sw_security_status_not_satisfied,
}
use pivy.Token.{PivSlot}
use pivy.Pin.{Piv, intxn, transceive_chain}
use pivy.Objects.{Parse, free_writer, tlv, take_object}
use pivy.Box.{PivBox, buf_slice, verifyb, boxderrf, boxverrf}
use pivy.Box.Wire.{SshKey, ssherrf}
use pivy.Box.Seal.{Crypto, Box, Cipher, must, found, bad_algorithm}

-- A command for a slot, with the data that a writer has written.
unfoldable pub slot_apdu : {C : Type 0} → ℕ → PivSlot → Outcome TlvState (Unit {0}) → M (Piv C) Apdu
slot_apdu ins slot (ok u ts) s =
    let a = piv_apdu_make cla_iso ins slot.ps_alg slot.ps_slot in
    ok (record a { a_cmd = record (a.a_cmd) { b_data = some ts.ts_buf; b_len = tlv_len ts } }) s
slot_apdu ins slot (err e ts) s = err e s
slot_apdu ins slot abort s = abort
slot_apdu ins slot fault s = fault
slot_apdu ins slot stuck s = stuck

-- The request, for the point `point` of the other side.
unfoldable pub write_ecdh : List ℕ → Tlv (Unit {0})
write_ecdh point = do
  tlv_pushl 0x7C (length point + 16)
  tlv_push 0x82
  tlv_pop
  tlv_pushl 0x85 (length point)
  tlv_write point
  tlv_pop
  tlv_pop

unfoldable pub read_secret : M Parse (List ℕ)
read_secret = do
  tag ← tlv tlv_read_tag
  fail_if (not (tag == 0x7C)) tagerrf
  inner ← tlv tlv_read_tag
  fail_if (not (inner == 0x82)) tagerrf
  secret ← tlv tlv_read_alloc
  tlv tlv_end
  tlv tlv_end
  pure secret

unfoldable pub ecdh_error : ℕ → Errf
ecdh_error sw = if sw == sw_security_status_not_satisfied then permerrf swerrf else swerrf

-- `VERIFY3U(*buf, ==, 0x04)`.
unfoldable pub verify_point : {S : Type 0} → List ℕ → M S (Unit {0})
verify_point [] s = fault
verify_point (form ∷ rest) s = verify (form == 0x04) s

-- The loop over the padding in `piv_box_open`, `n` bytes from `plain[i]`.
unfoldable pub card_padding_loop : {S : Type 0} → List ℕ → ℕ → ℕ → ℕ → M S Bool
card_padding_loop plain padding i zero = pure true
card_padding_loop plain padding i (suc n) = elim (get_elem? plain i) [
  | none ↦ λ s. fault
  | some b ↦
      (let rest = card_padding_loop plain padding (i + 1) n in
        if b == padding then rest else pure false)
]

-- `reallen` in `piv_box_open`.
unfoldable pub card_strip_padding : {S : Type 0} → ℕ → ℕ → List ℕ → M S ℕ
card_strip_padding blocksz plainlen plain = do
  padding ← elim (get_elem? plain (sub_size plainlen 1)) [ none ↦ λ s. fault | some b ↦ pure b ]
  fail_if (ltb padding 1 || ltb blocksz padding) (boxderrf (errf "PaddingError" no_error))
  let reallen = sub_size plainlen padding
  good ← card_padding_loop plain padding reallen (plainlen - reallen)
  fail_if (not good) (boxderrf (errf "PaddingError" no_error))
  pure reallen

-- `piv_box_open` has its own copy of the code around the ECDH of `piv_box_open_offline`.
module _ {EC P : Type 0} (crypto : Crypto EC P) where
  open crypto use {cipher_by_name, ssh_digest_alg_by_name, ssh_digest_bytes, ssh_digest, decrypt}

  -- The cipher and the digest that a box to open with a card names.
  unfoldable pub card_algs : Box crypto → M (Box crypto) (Cipher × ℕ)
  card_algs box = do
    cname ← must box.pdb_cipher
    kname ← must box.pdb_kdf
    cipher ← found (cipher_by_name cname) (boxverrf bad_algorithm)
    verify (ltb 0 cipher.cipher_authlen)
    dgalg ← found (ssh_digest_alg_by_name kname) (boxverrf bad_algorithm)
    fail_if (ltb (ssh_digest_bytes dgalg) cipher.cipher_keylen) (boxderrf bad_algorithm)
    pure (cipher, dgalg)

  -- From the shared secret on, with a card.
  unfoldable pub card_open_with : Box crypto → Cipher → ℕ → List ℕ → M (Box crypto) (Unit {0})
  card_open_with box cipher dgalg sec = do
    nonce ← if ltb 0 box.pdb_nonce.b_len then buf_slice box.pdb_nonce else pure []
    let key = take cipher.cipher_keylen (ssh_digest dgalg (sec ++ nonce))
    verifyb box.pdb_iv
    fail_if (not (box.pdb_iv.b_len == cipher.cipher_ivlen)) (boxderrf (errf "LengthError" no_error))
    iv ← buf_slice box.pdb_iv
    verifyb box.pdb_enc
    let enclen = box.pdb_enc.b_len
    fail_if (ltb enclen (cipher.cipher_authlen + cipher.cipher_blocksize))
        (boxderrf (errf "LengthError" no_error))
    enc ← buf_slice box.pdb_enc
    let plainlen = enclen - cipher.cipher_authlen
    plain ← found (decrypt cipher key iv enc) (boxderrf ssherrf)
    reallen ← card_strip_padding cipher.cipher_blocksize plainlen plain
    put (record box {
      pdb_plain = record { b_data = some plain; b_offset = 0; b_size = plainlen; b_len = reallen };
    })

-- A box, while the card and the token change too.
unfoldable pub on_box :
    {C EC P A : Type 0}
    → Piv C
    → Outcome (PivBox (SshKey EC) P) A
    → Outcome (Piv C × PivBox (SshKey EC) P) A
on_box s (ok a box) = ok a (s, box)
on_box s (err e box) = err e (s, box)
on_box s abort = abort
on_box s fault = fault
on_box s stuck = stuck

unfoldable pub from_card :
    {C EC P A : Type 0}
    → PivBox (SshKey EC) P
    → Outcome (Piv C) A
    → Outcome (Piv C × PivBox (SshKey EC) P) A
from_card box (ok a s) = ok a (s, box)
from_card box (err e s) = err (errf "BoxKeyError" e) (s, box)
from_card box abort = abort
from_card box fault = fault
from_card box stuck = stuck

module _ {C : Type 0} (scard_transmit : C → List ℕ → ℕ → Option (List ℕ) × C) (fuel : ℕ)
    {EC : Type 0} (put_eckey : EC → Option (List ℕ)) where
  -- `put_eckey` is `sshbuf_put_eckey` on an empty buffer: a length of four bytes, and the point.
  unfoldable pub piv_ecdh : PivSlot → SshKey EC → M (Piv C) (List ℕ)
  piv_ecdh slot pubkey = do
    intxn
    verify pubkey.is_ecdsa
    sbuf ← must (put_eckey pubkey.ecdsa)
    verify_point (drop 4 sbuf)
    let written = write_ecdh (drop 4 sbuf) tlv_init_write
    cmd ← slot_apdu ins_gen_auth slot written
    a ← free_writer written (transceive_chain scard_transmit fuel cmd)
    take_object false ecdh_error read_secret a

  unfoldable pub piv_box_open :
      {P : Type 0} → Crypto EC P → PivSlot → M (Piv C × PivBox (SshKey EC) P) (Unit {0})
  piv_box_open {P} crypto slot (s, box) =
      (do
        (cipher, dgalg) ←
            (λ (t : Piv C × PivBox (SshKey EC) P). on_box t.0 (card_algs crypto box t.1))
        ephem ← must box.pdb_ephem_pub
        sec ← (λ (t : Piv C × PivBox (SshKey EC) P). from_card t.1 (piv_ecdh slot ephem t.0))
        (λ (t : Piv C × PivBox (SshKey EC) P).
            on_box t.0 (card_open_with crypto box cipher dgalg sec t.1)))
        (s, box)

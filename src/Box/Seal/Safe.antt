-- ===== src/Box/Seal/Safe.antt =====
-- Opening a PIV box reads no memory outside of its buffers, whatever bytes the box came from.
use pivy.Prelude.{
  ℕ, ◌+◌, ◌-◌, ◌≤◌, ◌<◌, ◌^◌, ◌≡◌, refl, sym, ap, ◌∙◌, subst, inl, inr, Bool-cases, String, List,
  Bool, true, false, not, Option, none, some, length, ltb, ◌==◌, arith,
}
use pivy.Errf.{Errf}
use pivy.Outcome.{Outcome, ok, err, abort, verify, fail_if}
use pivy.Outcome.Ends.{Ends}
use pivy.Apdu.{ApduBuf}
use pivy.Apdu.Safe.{NoFault, NoFault-bind}
use pivy.Box.{buf_slice, verifyb, non_null}
use pivy.Box.Wire.{SshBuf, SshKey, ec_of}
use pivy.Box.Wire.Fields.{ec_key}
use pivy.Box.Wire.WellFormed.{Whole, CanOpen, KeysValid}
use pivy.Box.Binary.{is_old, piv_box_from_binary}
use pivy.Box.Binary.Versions.{IsRead, piv_box_from_binary-IsRead}
use pivy.Box.Seal.{
  Cipher, Crypto, Box, found, must, nonce_bytes, open_algs, open_with, piv_box_open_offline,
  strip_padding,
}
use pivy.Box.Seal.Padding.{Stripped, strip_padding-Stripped}
use pivy.Box.Seal.Opens.{sized-buf_slice}

-- What the code relies on of the ciphers: the plaintext is the ciphertext without the tag, and a
-- block has a byte.
pub record CipherLaws {EC P : Type 0} (crypto : Crypto EC P) : Type 0 where
  pub decrypt_length :
      (c : Cipher) (key iv enc plain : List ℕ)
      → crypto.decrypt c key iv enc ≡ some plain
      → length plain ≡ length enc - c.cipher_authlen
  pub some_block :
      (name : String) (c : Cipher) → crypto.cipher_by_name name ≡ some c → 0 < c.cipher_blocksize

Whole-NoFault :
    {S : Type 0} (r : ApduBuf) (s : S) → Whole r → NoFault (λ v. length v ≡ r.b_len) (buf_slice r s)
unfolding buf_slice
Whole-NoFault r s (inl none_at_all) = rw none_at_all refl
Whole-NoFault {S} r s (inr (bytes, all)) =
    subst (λ t. NoFault (λ v. length v ≡ t.b_len) (buf_slice t s)) (sym all)
      (rw (sized-buf_slice {S = S} bytes (length bytes) s refl) refl)

weaker : {S A : Type 0} (Q : A → Type 0) (o : Outcome S A) → NoFault Q o → NoFault (λ v. Unit {0}) o
weaker Q (ok a s) h = tt
weaker Q (err e s) h = tt
weaker Q abort h = tt
weaker Q Outcome.fault h = h
weaker Q Outcome.stuck h = tt

nonce-NoFault :
    {S : Type 0} (r : ApduBuf) (s : S) → Whole r → NoFault (λ v. Unit {0}) (nonce_bytes r s)
unfolding nonce_bytes
nonce-NoFault r s w = elim (Bool-cases (ltb 0 r.b_len)) [
  | inl some_byte ↦ rw some_byte (weaker _ (buf_slice r s) (Whole-NoFault r s w))
  | inr no_byte ↦ rw no_byte tt
]

verifyb-NoFault : {S : Type 0} (r : ApduBuf) (s : S) → NoFault (λ v. Unit {0}) (verifyb r s)
unfolding verifyb
verifyb-NoFault r s = ground arith

fail_if-NoFault :
    {S : Type 0} (c : Bool) (e : Errf) (s : S) → NoFault (λ v. c ≡ false) (fail_if c e s)
fail_if-NoFault true e s = tt
fail_if-NoFault false e s = refl

found-NoFault :
    {S A : Type 0} (o : Option A) (e : Errf) (s : S) → NoFault (λ a. o ≡ some a) (found o e s)
found-NoFault none e s = tt
found-NoFault (some a) e s = refl

must-NoFault : {S A : Type 0} (o : Option A) (s : S) → NoFault (λ a. o ≡ some a) (must o s)
must-NoFault none s = tt
must-NoFault (some a) s = refl

verify-NoFault : {S : Type 0} (b : Bool) (s : S) → NoFault (λ u. Unit {0}) (verify b s)
verify-NoFault true s = tt
verify-NoFault false s = tt

strip-NoFault :
    {S : Type 0} (blocksz plainlen : ℕ) (plain : List ℕ) (s : S)
    → length plain ≡ plainlen
    → 0 < blocksz
    → blocksz ≤ plainlen
    → plainlen < 2 ^ 64
    → NoFault (λ n. Unit {0}) (strip_padding blocksz plainlen plain s)
strip-NoFault {S} blocksz plainlen plain s same low fits small =
    subst (λ n. NoFault (λ k. Unit {0}) (strip_padding blocksz n plain s)) same
      (stripped (strip_padding-Stripped blocksz plain s low (omega arith) (omega arith)))
  where
    stripped : {o : Outcome S ℕ} → Stripped blocksz plain s o → NoFault (λ k. Unit {0}) o
    stripped (inl (w, p, f1, f2, f3, h)) = rw h tt
    stripped (inr h) = rw h tt

ec_of-NoFault :
    {S EC : Type 0} (k : SshKey EC) (s : S)
    → k.is_ecdsa ≡ true
    → NoFault (λ v. Unit {0}) (ec_of k s)
unfolding ec_of
ec_of-NoFault k s h = rw h tt

module _ {EC P : Type 0} (crypto : Crypto EC P) (laws : CipherLaws crypto) where
  open_with-NoFault :
      (c : Cipher) (dgalg : ℕ) (sec : List ℕ) (box s : Box crypto)
      → CanOpen box
      → 0 < c.cipher_blocksize
      → box.pdb_enc.b_len < 2 ^ 64
      → NoFault (λ u. Unit {0}) (open_with crypto box c dgalg sec s)
  unfolding open_with
  open_with-NoFault c dgalg sec box s (key, nonce, iv, enc) low small =
      NoFault-bind _ _ (nonce_bytes box.pdb_nonce) _ s (nonce-NoFault _ s nonce) (λ n s1 h1.
        NoFault-bind _ _ (verifyb box.pdb_iv) _ s1 (verifyb-NoFault _ s1) (λ u2 s2 h2.
          NoFault-bind _ _ (fail_if (not (box.pdb_iv.b_len == c.cipher_ivlen)) _) _ s2
            (fail_if-NoFault _ _ s2)
            (λ u3 s3 h3.
              NoFault-bind _ _ (buf_slice box.pdb_iv) _ s3 (Whole-NoFault _ s3 iv) (λ iv4 s4 h4.
                NoFault-bind _ _ (verifyb box.pdb_enc) _ s4 (verifyb-NoFault _ s4) (λ u5 s5 h5.
                  NoFault-bind _ _
                    (fail_if (ltb box.pdb_enc.b_len (c.cipher_authlen + c.cipher_blocksize)) _) _ s5
                    (fail_if-NoFault _ _ s5)
                    (λ u6 s6 h6.
                      NoFault-bind _ _ (buf_slice box.pdb_enc) _ s6 (Whole-NoFault _ s6 enc)
                        (λ enc7 s7 h7.
                          NoFault-bind _ _ (found (crypto.decrypt c _ iv4 enc7) _) _ s7
                            (found-NoFault _ _ s7)
                            (λ plain s8 h8.
                              let long : c.cipher_authlen + c.cipher_blocksize ≤ box.pdb_enc.b_len =
                                ground arith in
                              let plain_length : length plain
                                  ≡ box.pdb_enc.b_len - c.cipher_authlen =
                                laws.decrypt_length c _ iv4 enc7 plain h8
                                ∙ ap (λ k. k - c.cipher_authlen) h7 in
                              NoFault-bind (λ n. Unit {0}) (λ u. Unit {0})
                                (strip_padding c.cipher_blocksize
                                  (box.pdb_enc.b_len - c.cipher_authlen) plain)
                                _ s8
                                (strip-NoFault _ _ plain s8 plain_length low (omega arith)
                                  (omega arith))
                                (λ n9 s9 h9. tt)))))))))

  algs-NoFault :
      (box : Box crypto)
      → NoFault
          (λ (a : Cipher × ℕ). (name : String) × (crypto.cipher_by_name name ≡ some a.0))
          (open_algs crypto box box)
  unfolding open_algs
  algs-NoFault box =
      NoFault-bind _ _ (must box.pdb_cipher) _ box (must-NoFault _ box) (λ cname s1 h1.
        NoFault-bind _ _ (must box.pdb_kdf) _ s1 (must-NoFault _ s1) (λ kname s2 h2.
          NoFault-bind _ _ (found (crypto.cipher_by_name cname) _) _ s2 (found-NoFault _ _ s2)
            (λ c s3 h3.
              NoFault-bind (λ u. Unit {0}) _ (verify (ltb 0 c.cipher_authlen)) _ s3
                (verify-NoFault _ s3)
                (λ u4 s4 h4.
                  NoFault-bind _ _ (found (crypto.ssh_digest_alg_by_name kname) _) _ s4
                    (found-NoFault _ _ s4)
                    (λ dgalg s5 h5.
                      NoFault-bind _ _
                        (fail_if (ltb (crypto.ssh_digest_bytes dgalg) c.cipher_keylen) _) _ s5
                        (fail_if-NoFault _ _ s5) (λ u6 s6 h6. (cname, h3)))))))

  -- The ephemeral key of a box is an ECDSA key.
  abbrev pub EphemEcdsa : Box crypto → Type 0
  EphemEcdsa box = (k : SshKey EC) → box.pdb_ephem_pub ≡ some k → k.is_ecdsa ≡ true

  valid_ecdsa : (ssh : SshBuf EC) (box : Box crypto) → KeysValid ssh box → EphemEcdsa box
  valid_ecdsa ssh box (nid, k, k2, has_pub, has_ephem, good, good2) key e =
      let same : ec_key true nid k2 ≡ key = cc (sym has_ephem ∙ e) in
      sym (ap (λ (t : SshKey EC). t.is_ecdsa) same)

  -- A box whose buffers are whole and which has an ECDSA key as its ephemeral key is opened without
  -- an access outside a buffer, whatever they hold.
  pub open_offline-NoFault :
      (privkey : P) (box : Box crypto)
      → CanOpen box
      → EphemEcdsa box
      → box.pdb_enc.b_len < 2 ^ 64
      → NoFault (λ u. Unit {0}) (piv_box_open_offline crypto privkey box)
  unfolding piv_box_open_offline non_null
  open_offline-NoFault privkey box ready ecdsa small =
      NoFault-bind _ _ (open_algs crypto box) _ box (algs-NoFault box) (λ a s1 h1.
        NoFault-bind (λ k. k.is_ecdsa ≡ true) _ (non_null box.pdb_ephem_pub) _ s1
          (rw ready.0.1 (ecdsa ready.0.0 ready.0.1))
          (λ ephem s2 h2.
            NoFault-bind (λ v. Unit {0}) _ (ec_of ephem) _ s2 (ec_of-NoFault ephem s2 h2)
              (λ point s3 h3.
                NoFault-bind _ _ (found (crypto.ecdh_compute_key point privkey) _) _ s3
                  (found-NoFault _ _ s3)
                  (λ sec s4 h4.
                    open_with-NoFault a.0 a.1 sec box s4 ready (laws.some_block h1.0 a.0 h1.1)
                      small))))

  -- A box that `piv_box_from_binary` reads from any bytes is opened without an access outside a
  -- buffer or through a NULL key: it can be refused, but not read beyond its ends. For bytes of
  -- the format before alone, it is a condition that the ephemeral key in them is an ECDSA key.
  pub from_binary-open-NoFault :
      (ssh : SshBuf EC) (privkey : P) (input rest : List ℕ) (box : Box crypto)
      → piv_box_from_binary ssh input ≡ ok box rest
      → (is_old input ≡ true → EphemEcdsa box)
      → box.pdb_enc.b_len < 2 ^ 64
      → NoFault (λ u. Unit {0}) (piv_box_open_offline crypto privkey box)
  from_binary-open-NoFault ssh privkey input rest box h old_ecdsa small =
      let read =
        subst (Ends (IsRead P ssh input) (λ e b. Unit {0})) h
          (piv_box_from_binary-IsRead P ssh input) in
      open_offline-NoFault privkey box (ready rest read).0 (ready rest read).1 small
    where
      ready : (rest : List ℕ) → IsRead P ssh input box rest → CanOpen box × EphemEcdsa box
      ready rest (inl old) = (old.1.3, old_ecdsa old.0)
      ready rest (inr new) = (new.1.6, valid_ecdsa ssh box new.1.5)

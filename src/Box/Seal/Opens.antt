-- ===== src/Box/Seal/Opens.antt =====
-- A PIV box that was sealed to a key opens with it.
use pivy.Prelude.{
  ℕ, ◌+◌, ◌-◌, ◌≤◌, ◌<◌, ◌^◌, ◌≡◌, refl, sym, ap, ◌∙◌, List, ◌++◌, Bool, true, false, not, Option,
  some, length, length-append, take, replicate, ltb, le→leb, le→ltb, ◌==◌, arith,
}
use pivy.Errf.{Errf}
use pivy.Outcome.{M, ok, ◌>>◌, bind-ok, fail_if}
use pivy.Apdu.{ApduBuf, slice, empty_buf}
use pivy.Apdu.Blocks.{take_all, take-length}
use pivy.Box.{buf_slice, verifyb, non_null, piv_box_take_data}
use pivy.Box.Wire.{SshKey, ec_of}
use pivy.Box.Seal.{
  Cipher, Crypto, Box, found, nonce_bytes, open_algs, open_with, piv_box_open_offline,
  strip_padding,
}
use pivy.Box.Seal.Padding.{strip_padding-replicate}

-- The first `n` bytes of memory for them.
abbrev pub sized : List ℕ → ℕ → ApduBuf
sized bytes n = record { b_data = some bytes; b_size = n; b_offset = 0; b_len = n }

front_le : (d e : List ℕ) → 0 + length d ≤ length (d ++ e)
front_le d e = omega (arith, length-append d e)

pub sized-buf_slice :
    {S : Type 0} (bytes : List ℕ) (n : ℕ) (s : S)
    → length bytes ≡ n
    → buf_slice (sized bytes n) s ≡ ok bytes s
unfolding buf_slice slice
sized-buf_slice bytes n s h =
    rw (le→leb (0 + n) (length bytes) (omega arith), take_all bytes n (sym h), buf_slice) refl

pub front_slice :
    {S : Type 0} (d e : List ℕ) (n : ℕ) (s : S)
    → buf_slice (record { b_data = some (d ++ e); b_size = n; b_offset = 0; b_len = length d }) s
      ≡ ok d s
unfolding buf_slice slice
front_slice d e n s =
    rw
      (
        le→leb (0 + length d) (length (d ++ e)) (front_le d e),
        take-length d e (length d) refl,
        buf_slice,
      )
      refl

sized-verifyb : {S : Type 0} (bytes : List ℕ) (n : ℕ) (s : S) → verifyb (sized bytes n) s ≡ ok tt s
unfolding verifyb
sized-verifyb bytes n s = ground arith

passes :
    {S A : Type 0} (c : Bool) (e : Errf) (m : M S A) (s : S)
    → c ≡ false
    → (fail_if c e >> m) s ≡ m s
passes true e m s h = absurd (cc h)
passes false e m s h = refl

found-some :
    {S A : Type 0} (o : Option A) (e : Errf) (a : A) (s : S) → o ≡ some a → found o e s ≡ ok a s
found-some o e a s h = rw h refl

module _ {EC P : Type 0} (crypto : Crypto EC P) where
  -- A box in which `d` is sealed for the private key `privkey`: what each step of opening it finds.
  pub record Locked (privkey : P) (d : List ℕ) (box : Box crypto) : Type 0 where
    pub cipher : Cipher
    pub dgalg : ℕ
    pub ephem : SshKey EC
    pub sec : List ℕ
    pub nonce : List ℕ
    pub iv : List ℕ
    pub enc : List ℕ
    pub pad : ℕ
    pub algs : open_algs crypto box box ≡ ok (cipher, dgalg) box
    pub has_ephem : box.pdb_ephem_pub ≡ some ephem
    pub ephem_ecdsa : ephem.is_ecdsa ≡ true
    pub shared : crypto.ecdh_compute_key ephem.ecdsa privkey ≡ some sec
    pub has_nonce : (t : Box crypto) → nonce_bytes box.pdb_nonce t ≡ ok nonce t
    pub has_iv : box.pdb_iv ≡ sized iv cipher.cipher_ivlen
    pub iv_length : length iv ≡ cipher.cipher_ivlen
    pub has_enc : box.pdb_enc ≡ sized enc (length d + pad + cipher.cipher_authlen)
    pub enc_length : length enc ≡ length d + pad + cipher.cipher_authlen
    pub decrypts :
        crypto.decrypt cipher
          (take cipher.cipher_keylen (crypto.ssh_digest dgalg (sec ++ nonce)))
          iv
          enc
        ≡ some (d ++ replicate pad pad)
    pub some_pad : 0 < pad
    pub pad_fits : pad ≤ cipher.cipher_blocksize
    pub block_fits : cipher.cipher_blocksize ≤ length d + pad
    pub small : length d + pad + cipher.cipher_authlen < 2 ^ 64

  -- The box with its plaintext.
  abbrev pub opened : List ℕ → ℕ → Box crypto → Box crypto
  opened d pad box = record box {
    pdb_plain = record {
      b_data = some (d ++ replicate pad pad);
      b_size = length d + pad;
      b_offset = 0;
      b_len = length d;
    };
  }

  enc_len :
      {privkey : P} {d : List ℕ} {box : Box crypto} (l : Locked privkey d box)
      → box.pdb_enc.b_len ≡ length d + l.pad + l.cipher.cipher_authlen
  enc_len l = ap (λ (r : ApduBuf). r.b_len) l.has_enc

  long_enough :
      {privkey : P} {d : List ℕ} {box : Box crypto} (l : Locked privkey d box)
      → ltb box.pdb_enc.b_len (l.cipher.cipher_authlen + l.cipher.cipher_blocksize) ≡ false
  long_enough l = let n = enc_len l in let fits = l.block_fits in le→ltb _ _ (omega arith)

  plain_len :
      {privkey : P} {d : List ℕ} {box : Box crypto} (l : Locked privkey d box)
      → box.pdb_enc.b_len - l.cipher.cipher_authlen ≡ length d + l.pad
  plain_len l = let n = enc_len l in omega arith

  total_small :
      {privkey : P} {d : List ℕ} {box : Box crypto} (l : Locked privkey d box)
      → length d + l.pad < 2 ^ 64
  total_small l = let fits = l.small in omega arith

  non_null-some :
      {box : Box crypto} {k : SshKey EC}
      → box.pdb_ephem_pub ≡ some k
      → non_null box.pdb_ephem_pub box ≡ ok k box
  unfolding non_null
  non_null-some h = rw h refl

  ec_of_lem : (k : SshKey EC) (box : Box crypto) → k.is_ecdsa ≡ true → ec_of k box ≡ ok k.ecdsa box
  unfolding ec_of
  ec_of_lem k box h = rw h refl

  pub opened-take :
      (d : List ℕ) (pad : ℕ) (box : Box crypto)
      → piv_box_take_data (opened d pad box) ≡ ok d (record box { pdb_plain = empty_buf })
  unfolding piv_box_take_data
  opened-take d pad box =
      bind-ok (buf_slice (opened d pad box).pdb_plain) _ (opened d pad box) d (opened d pad box)
        (front_slice d (replicate pad pad) (length d + pad) (opened d pad box))

  open_with-Locked :
      (privkey : P) (d : List ℕ) (box : Box crypto) (l : Locked privkey d box)
      → open_with crypto box l.cipher l.dgalg l.sec box ≡ ok tt (opened d l.pad box)
  unfolding open_with
  open_with-Locked privkey d box l =
      bind-ok (nonce_bytes box.pdb_nonce) _ box l.nonce box (l.has_nonce box)
      ∙ bind-ok (verifyb box.pdb_iv) _ box tt box
          (ap (λ r. verifyb r box) l.has_iv ∙ sized-verifyb l.iv l.cipher.cipher_ivlen box)
      ∙ passes (not (box.pdb_iv.b_len == l.cipher.cipher_ivlen)) _ _ box (ground arith)
      ∙ bind-ok (buf_slice box.pdb_iv) _ box l.iv box (
          ap (λ r. buf_slice r box) l.has_iv
          ∙ sized-buf_slice l.iv l.cipher.cipher_ivlen box l.iv_length)
      ∙ bind-ok (verifyb box.pdb_enc) _ box tt box
          (ap (λ r. verifyb r box) l.has_enc ∙ sized-verifyb l.enc _ box)
      ∙ passes (ltb box.pdb_enc.b_len (l.cipher.cipher_authlen + l.cipher.cipher_blocksize)) _ _ box
          (long_enough l)
      ∙ bind-ok (buf_slice box.pdb_enc) _ box l.enc box
          (ap (λ r. buf_slice r box) l.has_enc ∙ sized-buf_slice l.enc _ box l.enc_length)
      ∙ bind-ok
          (found
            (crypto.decrypt l.cipher
              (take l.cipher.cipher_keylen (crypto.ssh_digest l.dgalg (l.sec ++ l.nonce))) l.iv
              l.enc)
            _)
          _ box (d ++ replicate l.pad l.pad) box
          (found-some _ _ (d ++ replicate l.pad l.pad) box l.decrypts)
      ∙ bind-ok
          (strip_padding l.cipher.cipher_blocksize (box.pdb_enc.b_len - l.cipher.cipher_authlen)
            (d ++ replicate l.pad l.pad))
          _ box (length d) box
          (ap (λ k. strip_padding l.cipher.cipher_blocksize k (d ++ replicate l.pad l.pad) box)
              (plain_len l)
            ∙ strip_padding-replicate l.cipher.cipher_blocksize d l.pad box l.some_pad l.pad_fits
                (total_small l))
      ∙ ap
          (λ k. ok tt (record box {
            pdb_plain = record {
              b_data = some (d ++ replicate l.pad l.pad);
              b_size = k;
              b_offset = 0;
              b_len = length d;
            };
          }))
          (plain_len l)

  pub open_offline-Locked :
      (privkey : P) (d : List ℕ) (box : Box crypto) (l : Locked privkey d box)
      → piv_box_open_offline crypto privkey box ≡ ok tt (opened d l.pad box)
  unfolding piv_box_open_offline
  open_offline-Locked privkey d box l =
      bind-ok (open_algs crypto box) _ box (l.cipher, l.dgalg) box l.algs
      ∙ bind-ok (non_null box.pdb_ephem_pub) _ box l.ephem box (non_null-some l.has_ephem)
      ∙ bind-ok (ec_of l.ephem) _ box l.ephem.ecdsa box (ec_of_lem l.ephem box l.ephem_ecdsa)
      ∙ bind-ok (found (crypto.ecdh_compute_key l.ephem.ecdsa privkey) _) _ box l.sec box
          (found-some _ _ l.sec box l.shared)
      ∙ open_with-Locked privkey d box l

  -- A box in which `d` is sealed opens with the private key, and gives `d`.
  pub open-take :
      (privkey : P) (d : List ℕ) (box : Box crypto)
      → Locked privkey d box
      → (piv_box_open_offline crypto privkey >> piv_box_take_data) box
        ≡ ok d (record box { pdb_plain = empty_buf })
  open-take privkey d box l =
      bind-ok (piv_box_open_offline crypto privkey) _ box tt (opened d l.pad box)
        (open_offline-Locked privkey d box l)
      ∙ opened-take d l.pad box

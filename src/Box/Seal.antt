-- ===== src/Box/Seal.antt =====
-- piv.c: sealing a PIV box to a public key, and opening it with the private key.
pub mod Padding
pub mod Opens
pub mod Seals
pub mod Safe
use pivy.Prelude.{
  ℕ, zero, suc, ◌+◌, ◌-◌, ◌%◌, List, [], ◌∷◌, ◌++◌, Bool, true, false, not, ◌&&◌, ◌||◌, Option,
  none, some, String, length, take, get_elem?, replicate, ltb, leb, ◌==◌, if◌then◌else◌, sub_size,
}
use pivy.Errf.{Errf, errf, no_error}
use pivy.Outcome.{
  Outcome, M, ok, err, abort, fault, ◌>>=◌, ◌>>◌, pure, verify, get, put, fail_if, fail,
}
use pivy.Apdu.{ApduBuf, argerrf}
use pivy.Box.{
  PivBox, full_buf, buf_slice, non_null, verifyb, is_null, default_cipher, default_kdf, or_default,
  boxderrf, boxverrf, boxaerrf, box_v2,
}
use pivy.Box.Wire.{SshKey, ec_of, ssherrf}

-- `struct sshcipher`, as the sizes that it is asked for.
pub record Cipher : Type 0 where
  pub cipher_ivlen : ℕ
  pub cipher_authlen : ℕ
  pub cipher_blocksize : ℕ
  pub cipher_keylen : ℕ

-- The calls of libssh and libcrypto, for private keys `P` and points `EC`. A call that fails is
-- `none`. `ssh_digest` is start, update and final; `encrypt` and `decrypt` are `cipher_init` and
-- `cipher_crypt`, with the tag behind the ciphertext.
pub record Crypto (EC P : Type 0) : Type 0 where
  pub cipher_by_name : String → Option Cipher
  pub ssh_digest_alg_by_name : String → Option ℕ
  pub ssh_digest_bytes : ℕ → ℕ
  pub ssh_digest : ℕ → List ℕ → List ℕ
  pub encrypt : Cipher → List ℕ → List ℕ → List ℕ → Option (List ℕ)
  pub decrypt : Cipher → List ℕ → List ℕ → List ℕ → Option (List ℕ)
  pub ecdh_compute_key : EC → P → Option (List ℕ)
  pub sshkey_demote : P → Option (SshKey EC)
  pub demote_public : SshKey EC → Option (SshKey EC)

-- What `sshkey_generate` and `arc4random_buf` give: an ephemeral key, a nonce and an IV.
pub record Random (P : Type 0) : Type 0 where
  pub new_key : Option P
  pub new_nonce : List ℕ
  pub new_iv : List ℕ

abbrev pub bad_algorithm : Errf
bad_algorithm = errf "BadAlgorithmError" no_error

-- What a lookup or a call gives, or else an error.
abbrev pub found : {S A : Type 0} → Option A → Errf → M S A
found none e = fail e
found (some a) e = pure a

-- `VERIFY0(rc)` of a call that gives `a`.
abbrev pub must : {S A : Type 0} → Option A → M S A
must none s = abort
must (some a) s = ok a s

-- The loop over the padding, `n` bytes from `plain[i]`.
unfoldable pub padding_loop : {S : Type 0} → List ℕ → ℕ → ℕ → ℕ → M S Bool
padding_loop plain padding i zero = pure true
padding_loop plain padding i (suc n) = elim (get_elem? plain i) [
  | none ↦ λ s. fault
  | some b ↦
      (let rest = padding_loop plain padding (i + 1) n in if b == padding then rest else pure false)
]

-- `reallen`, of a plaintext of `plainlen` bytes for blocks of `blocksz`.
unfoldable pub strip_padding : {S : Type 0} → ℕ → ℕ → List ℕ → M S ℕ
strip_padding blocksz plainlen plain = do
  padding ← elim (get_elem? plain (sub_size plainlen 1)) [ none ↦ λ s. fault | some b ↦ pure b ]
  fail_if (ltb padding 1 || ltb blocksz padding) (boxderrf (errf "PaddingError" no_error))
  good ←
      padding_loop plain padding (sub_size plainlen padding) (plainlen - sub_size plainlen padding)
  fail_if (not good) (boxderrf (errf "PaddingError" no_error))
  pure (sub_size plainlen padding)

-- What is hashed behind the shared secret.
unfoldable pub nonce_bytes : {S : Type 0} → ApduBuf → M S (List ℕ)
nonce_bytes nonce = if ltb 0 nonce.b_len then buf_slice nonce else pure []

module _ {EC P : Type 0} (crypto : Crypto EC P) where
  open crypto use {
    cipher_by_name, ssh_digest_alg_by_name, ssh_digest_bytes, ssh_digest, encrypt, decrypt,
    ecdh_compute_key, sshkey_demote, demote_public,
  }

  abbrev pub Box : Type 0
  Box = PivBox (SshKey EC) P

  -- The cipher and the digest that a box to open with a key names.
  unfoldable pub open_algs : Box → M Box (Cipher × ℕ)
  open_algs box = do
    cname ← must box.pdb_cipher
    kname ← must box.pdb_kdf
    cipher ← found (cipher_by_name cname) (boxverrf bad_algorithm)
    verify (ltb 0 cipher.cipher_authlen)
    dgalg ← found (ssh_digest_alg_by_name kname) (boxverrf bad_algorithm)
    fail_if (ltb (ssh_digest_bytes dgalg) cipher.cipher_keylen) (boxderrf bad_algorithm)
    pure (cipher, dgalg)

  -- From the shared secret on, with a key.
  unfoldable pub open_with : Box → Cipher → ℕ → List ℕ → M Box (Unit {0})
  open_with box cipher dgalg sec = do
    nonce ← nonce_bytes box.pdb_nonce
    verifyb box.pdb_iv
    fail_if (not (box.pdb_iv.b_len == cipher.cipher_ivlen)) (boxderrf (errf "LengthError" no_error))
    iv ← buf_slice box.pdb_iv
    verifyb box.pdb_enc
    fail_if (ltb box.pdb_enc.b_len (cipher.cipher_authlen + cipher.cipher_blocksize))
        (boxderrf (errf "LengthError" no_error))
    enc ← buf_slice box.pdb_enc
    plain ←
        found (decrypt cipher (take cipher.cipher_keylen (ssh_digest dgalg (sec ++ nonce))) iv enc)
          (boxderrf ssherrf)
    reallen ←
        strip_padding cipher.cipher_blocksize (box.pdb_enc.b_len - cipher.cipher_authlen) plain
    put (record box {
      pdb_plain = record {
        b_data = some plain;
        b_size = box.pdb_enc.b_len - cipher.cipher_authlen;
        b_offset = 0;
        b_len = reallen;
      };
    })

  unfoldable pub piv_box_open_offline : P → M Box (Unit {0})
  piv_box_open_offline privkey = do
    box ← get
    (cipher, dgalg) ← open_algs box
    ephem ← non_null box.pdb_ephem_pub
    point ← ec_of ephem
    sec ← found (ecdh_compute_key point privkey) (boxderrf (errf "OpenSSLError" no_error))
    open_with box cipher dgalg sec

  -- The ephemeral key, which is made unless the box has one.
  unfoldable pub ephemeral_key : Random P → Box → M Box P
  ephemeral_key random box = elim box.pdb_ephem [
    | none ↦ found random.new_key (boxaerrf ssherrf)
    | some pkey ↦ pure pkey
  ]

  unfoldable pub seal_cipher : Box → M Box Cipher
  seal_cipher box = do
    cipher ←
        found (cipher_by_name (or_default box.pdb_cipher default_cipher)) (boxaerrf bad_algorithm)
    verify (ltb 0 cipher.cipher_authlen)
    pure cipher

  unfoldable pub seal_nonce : Random P → M Box (Unit {0})
  seal_nonce random = do
    box ← get
    (if leb box_v2 box.pdb_version && (is_null box.pdb_nonce || box.pdb_nonce.b_len == 0)
        then put (record box {
          pdb_nonce = record {
            b_data = some random.new_nonce;
            b_size = 16;
            b_offset = 0;
            b_len = 16;
          };
        })
        else pure tt)

  unfoldable pub seal_digest : Cipher → Box → M Box ℕ
  seal_digest cipher box = do
    dgalg ←
        found (ssh_digest_alg_by_name (or_default box.pdb_kdf default_kdf)) (boxaerrf bad_algorithm)
    fail_if (ltb (ssh_digest_bytes dgalg) cipher.cipher_keylen) (boxaerrf bad_algorithm)
    pure dgalg

  -- The plaintext and its padding, up to a whole number of blocks.
  unfoldable pub padded : Cipher → ApduBuf → M Box (List ℕ)
  padded cipher plain = do
    verify (ltb 0 plain.b_len)
    (if cipher.cipher_blocksize == 0 then (λ s. fault) else pure tt)
    let padding = cipher.cipher_blocksize - plain.b_len % cipher.cipher_blocksize
    bytes ← buf_slice plain
    pure (bytes ++ replicate padding (padding % 256))

  -- From the shared secret on.
  unfoldable pub seal_with : SshKey EC → Cipher → ℕ → List ℕ → List ℕ → M Box (Unit {0})
  seal_with pubk cipher dgalg sec iv = do
    box ← get
    nonce ← nonce_bytes box.pdb_nonce
    plain ← padded cipher box.pdb_plain
    enc ←
        must (encrypt cipher (take cipher.cipher_keylen (ssh_digest dgalg (sec ++ nonce))) iv plain)
    to ← must (demote_public pubk)
    put (record box {
      pdb_iv = record {
        b_data = some iv;
        b_size = cipher.cipher_ivlen;
        b_offset = 0;
        b_len = cipher.cipher_ivlen;
      };
      pdb_plain = record (box.pdb_plain) { b_data = none; b_size = 0; b_len = 0 };
      pdb_pub = some to;
      pdb_enc = record {
        b_data = some enc;
        b_size = length plain + cipher.cipher_authlen;
        b_offset = 0;
        b_len = length plain + cipher.cipher_authlen;
      };
    })

  -- `pdb_ephem_pub`, and the names of the cipher and the digest if they are not set.
  unfoldable pub seal_names : SshKey EC → M Box (Unit {0})
  seal_names ephem = do
    box ← get
    put (record box {
      pdb_ephem_pub = some ephem;
      pdb_cipher = some (or_default box.pdb_cipher default_cipher);
      pdb_kdf = some (or_default box.pdb_kdf default_kdf);
    })

  unfoldable pub piv_box_seal_offline : Random P → SshKey EC → M Box (Unit {0})
  piv_box_seal_offline random pubk = do
    fail_if (not pubk.is_ecdsa) argerrf
    box ← get
    pkey ← ephemeral_key random box
    ephem ← must (sshkey_demote pkey)
    seal_names ephem
    cipher ← seal_cipher box
    seal_nonce random
    dgalg ← seal_digest cipher box
    sec ← found (ecdh_compute_key pubk.ecdsa pkey) (boxaerrf (errf "OpenSSLError" no_error))
    seal_with pubk cipher dgalg sec random.new_iv

  -- For the token with the GUID `guid` and its slot `ps_slot`, of which `ps_pubkey` is the key.
  unfoldable pub piv_box_seal : Random P → List ℕ → ℕ → SshKey EC → M Box (Unit {0})
  piv_box_seal random guid ps_slot ps_pubkey = do
    piv_box_seal_offline random ps_pubkey
    box ← get
    put (record box { pdb_guidslot_valid = true; pdb_guid = guid; pdb_slot = ps_slot })

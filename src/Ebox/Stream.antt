-- ===== src/Ebox/Stream.antt =====
-- ebox.c: streams (`struct ebox_stream`), data in chunks that the key of an ebox encrypts.
pub mod Laws
pub mod Chunks
pub mod Carried
pub mod Macs
pub mod Tests
use pivy.Prelude.{
  ℕ, ◌+◌, ◌-◌, ◌*◌, ◌%◌, ◌^◌, List, [], ◌∷◌, ◌++◌, Bool, true, false, not, Option, none, some,
  String, length, take, drop, replicate, ltb, ◌==◌, if◌then◌else◌, sub_size,
}
use pivy.Tlv.Write.{octet}
use pivy.Errf.{Errf, errf, no_error}
use pivy.Outcome.{
  Outcome, M, ok, err, abort, fault, stuck, ◌>>=◌, ◌>>◌, pure, get, put, verify, fail, fail_if,
  on_error,
}
use pivy.Apdu.{argerrf}
use pivy.Box.{boxderrf}
use pivy.Box.Wire.{SshBuf, Buf, ssherrf, append_to}
use pivy.Box.Seal.{Cipher, Crypto, found, must, strip_padding}
use pivy.Objects.{same_bytes}
use pivy.Ebox.{Tpl}
use pivy.Ebox.Template.{read}
use pivy.Ebox.State.{Ebox, Sss, bytes_of}
use pivy.Ebox.Create.{Draws, ebox_create}

-- The calls of libssh that streams make: `cipher_init` and `cipher_crypt` with a sequence number,
-- and `ssh_hmac_init` to `ssh_hmac_final`; and two that put and get a number and a string.
pub record StreamLib (EC P : Type 0) : Type 0 where
  pub crypto : Crypto EC P
  pub encrypt_nr : Cipher → ℕ → List ℕ → List ℕ → List ℕ → Option (List ℕ)
  pub decrypt_nr : Cipher → ℕ → List ℕ → List ℕ → List ℕ → Option (List ℕ)
  pub ssh_hmac : ℕ → List ℕ → List ℕ → List ℕ
  pub put_u32 : ℕ → List ℕ → Option (List ℕ)
  pub get_u32 : List ℕ → Option (ℕ × List ℕ)

-- `struct ebox_stream`.
pub record EboxStream (EC P : Type 0) : Type 0 where
  pub es_ebox : Ebox EC P
  pub es_cipher : String
  pub es_mac : String
  pub es_chunklen : ℕ

-- `struct ebox_stream_chunk`; memory with its length is the bytes in it.
pub record Chunk (EC P : Type 0) : Type 0 where
  pub esc_stream : EboxStream EC P
  pub esc_seqnr : ℕ
  pub esc_enc : Option (List ℕ)
  pub esc_plain : Option (List ℕ)

abbrev pub ebox_stream : ℕ
ebox_stream = 0x03

-- `esc_seqnr` is a `uint32_t`.
unfoldable pub ebox_stream_chunk_new : {EC P : Type 0} → EboxStream EC P → List ℕ → ℕ → Chunk EC P
ebox_stream_chunk_new es bytes seqnr = record {
  esc_stream = es;
  esc_seqnr = seqnr % 2 ^ 32;
  esc_enc = none;
  esc_plain = some bytes;
}

-- The sequence number in big-endian order, and zeros.
unfoldable pub chunk_iv : {S : Type 0} → Cipher → ℕ → M S (List ℕ)
chunk_iv cipher seqnr =
    if ltb 0 cipher.cipher_ivlen
    then (do
      verify (not (ltb cipher.cipher_ivlen 4))
      pure (
          octet seqnr 3
          ∷ octet seqnr 2
          ∷ octet seqnr 1
          ∷ octet seqnr 0
          ∷ replicate (cipher.cipher_ivlen - 4) 0))
    else pure []

module _ {EC P : Type 0} (lib : StreamLib EC P) where
  open lib use {crypto, encrypt_nr, decrypt_nr, ssh_hmac, put_u32, get_u32}
  open crypto use {cipher_by_name, ssh_digest_alg_by_name, ssh_digest_bytes}

  -- `dgalg` of a cipher without a tag, else -1.
  unfoldable pub mac_alg : {S : Type 0} → Cipher → String → M S (Option ℕ)
  mac_alg cipher es_mac =
      if cipher.cipher_authlen == 0
      then (do dgalg ← must (ssh_digest_alg_by_name es_mac); pure (some dgalg))
      else pure none

  unfoldable pub mac_len : Option ℕ → ℕ
  mac_len none = 0
  mac_len (some dgalg) = ssh_digest_bytes dgalg

  -- The first `keylen` bytes of the key of the ebox.
  unfoldable pub chunk_key : {S : Type 0} → Cipher → Ebox EC P → M S (List ℕ)
  chunk_key cipher box = do
    key ← must box.e_key
    verify (not (ltb (length key) cipher.cipher_keylen))
    pure (take cipher.cipher_keylen key)

  unfoldable pub mac_bytes : Option ℕ → List ℕ → List ℕ → List ℕ
  mac_bytes none key enc = []
  mac_bytes (some dgalg) key enc = ssh_hmac dgalg key enc

  unfoldable pub ebox_stream_encrypt_chunk : M (Chunk EC P) (Unit {0})
  ebox_stream_encrypt_chunk = do
    esc ← get
    cipher ← must (cipher_by_name esc.esc_stream.es_cipher)
    iv ← chunk_iv cipher esc.esc_seqnr
    dgalg ← mac_alg cipher esc.esc_stream.es_mac
    key ← chunk_key cipher esc.esc_stream.es_ebox
    (if cipher.cipher_blocksize == 0 then (λ s. fault) else pure tt)
    let plain = bytes_of esc.esc_plain
    let padding = cipher.cipher_blocksize - length plain % cipher.cipher_blocksize
    enc ← must (encrypt_nr cipher esc.esc_seqnr key iv (plain ++ replicate padding (padding % 256)))
    put (record esc { esc_enc = some (enc ++ mac_bytes dgalg key enc) })

  -- The MAC behind the ciphertext. The length of the ciphertext is a `size_t`, and wraps around when
  -- there are fewer bytes than the MAC has: then the HMAC reads outside of them.
  unfoldable pub check_mac : {S : Type 0} → Option ℕ → List ℕ → List ℕ → M S (Unit {0})
  check_mac none key enc = pure tt
  check_mac (some dgalg) key enc =
      let n = sub_size (length enc) (ssh_digest_bytes dgalg) in
      if ltb (length enc) n
      then (λ s. fault)
      else fail_if (not (same_bytes (ssh_hmac dgalg key (take n enc)) (drop n enc)))
          (errf "MACError" no_error)

  -- From the MAC on.
  unfoldable pub open_chunk :
      Chunk EC P → Cipher → List ℕ → Option ℕ → List ℕ → List ℕ → M (Chunk EC P) (Unit {0})
  open_chunk esc cipher iv dgalg key enc = do
    check_mac dgalg key enc
    let sent = take (sub_size (length enc) (mac_len dgalg)) enc
    plain ← found (decrypt_nr cipher esc.esc_seqnr key iv sent) ssherrf
    reallen ←
        on_error (λ e. errf "PaddingError" no_error)
          (strip_padding cipher.cipher_blocksize (sub_size (length sent) cipher.cipher_authlen)
            plain)
    put (record esc { esc_plain = some (take reallen plain) })

  unfoldable pub ebox_stream_decrypt_chunk : M (Chunk EC P) (Unit {0})
  ebox_stream_decrypt_chunk = do
    esc ← get
    cipher ← must (cipher_by_name esc.esc_stream.es_cipher)
    iv ← chunk_iv cipher esc.esc_seqnr
    dgalg ← mac_alg cipher esc.esc_stream.es_mac
    key ← chunk_key cipher esc.esc_stream.es_ebox
    let enc = bytes_of esc.esc_enc
    fail_if (ltb (length enc) (cipher.cipher_authlen + cipher.cipher_blocksize))
        (errf "LengthError" no_error)
    open_chunk esc cipher iv dgalg key enc

  module _ (ssh : SshBuf EC) where
    open ssh use {put_string, get_string}

    unfoldable pub sshbuf_put_ebox_stream_chunk : Chunk EC P → M Buf (Unit {0})
    sshbuf_put_ebox_stream_chunk esc = elim esc.esc_enc [
      | none ↦ fail argerrf
      | some enc ↦ (do append_to (put_u32 esc.esc_seqnr); append_to (put_string enc))
    ]

    unfoldable pub sshbuf_get_ebox_stream_chunk : EboxStream EC P → M Buf (Chunk EC P)
    sshbuf_get_ebox_stream_chunk es = do
      seqnr ← on_error boxderrf (read get_u32)
      enc ← on_error boxderrf (read get_string)
      pure (record { esc_stream = es; esc_seqnr = seqnr; esc_enc = some enc; esc_plain = none })

    -- With the bytes that are drawn for the key. `es_ebox` is written to before the error of
    -- `ebox_create` is looked at, when it is NULL.
    unfoldable pub ebox_stream_new :
        Sss → Draws P → Tpl EC → List ℕ → M (Unit {0}) (EboxStream EC P)
    ebox_stream_new sss draws tpl key = do
      cipher ← must (cipher_by_name "aes256-ctr")
      (λ s. elim (ebox_create crypto sss draws ssh tpl (take cipher.cipher_keylen key) none) [
        | ok u box ↦
            ok
              (record {
                es_ebox = record box {
                  e_key = some (take cipher.cipher_keylen key);
                  e_type = ebox_stream;
                };
                es_cipher = "aes256-ctr";
                es_mac = "sha256";
                es_chunklen = 128 * 1024;
              })
              s
        | err e box ↦ fault
        | abort ↦ abort
        | fault ↦ fault
        | stuck ↦ stuck
      ])

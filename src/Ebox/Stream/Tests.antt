-- ===== src/Ebox/Stream/Tests.antt =====
-- Instances of the theorems on streams.
use pivy.Prelude.{
  ℕ, ◌≡◌, refl, ap, sym, List, [], ◌∷◌, ◌++◌, none, some, length, length-replicate, replicate,
  arith,
}
use pivy.Outcome.{ok, fault}
use pivy.Outcome.Ends.{Ends}
use pivy.Box.Wire.{Buf}
use pivy.Box.Seal.{Cipher, Crypto}
use pivy.Box.Seal.Seals.{AnyErr}
use pivy.Box.Tests.{ssh, ssh-laws, crypto, crypto-laws, get_octet, untag}
use pivy.Ebox.Create.{new_ebox}
use pivy.Ebox.Stream.{
  StreamLib, EboxStream, Chunk, ebox_stream_chunk_new, ebox_stream_encrypt_chunk,
  ebox_stream_decrypt_chunk, sshbuf_put_ebox_stream_chunk, sshbuf_get_ebox_stream_chunk,
}
use pivy.Ebox.Stream.Laws.{StreamLaws}
use pivy.Ebox.Stream.Carried.{chunk-decrypt_chunk}
use pivy.Ebox.Stream.Macs.{decrypt_chunk-short, decrypt_chunk-Authentic}

abbrev ctr : Cipher
ctr = record { cipher_ivlen = 6; cipher_authlen = 0; cipher_blocksize = 4; cipher_keylen = 3 }

abbrev ctr_crypto : Crypto ℕ ℕ
ctr_crypto = record crypto { cipher_by_name = λ name. some ctr; ssh_digest_bytes = λ dgalg. 8 }

-- The MAC is the number of bytes, eight times.
abbrev lib : StreamLib ℕ ℕ
lib = record {
  crypto = ctr_crypto;
  encrypt_nr = λ c nr key iv plain. some (plain ++ replicate c.cipher_authlen 0);
  decrypt_nr = λ c nr key iv enc. untag c enc;
  ssh_hmac = λ dgalg key bytes. replicate 8 (length bytes);
  put_u32 = λ v b. some (b ++ (v ∷ []));
  get_u32 = get_octet;
}

ctr_sizes : (c : Cipher) → some ctr ≡ some c → (c.cipher_blocksize ≡ 4) × (c.cipher_authlen ≡ 0)
ctr_sizes c h =
    let e : ctr ≡ c = cc h in
    (ap (λ (t : Cipher). t.cipher_blocksize) (sym e), ap (λ (t : Cipher). t.cipher_authlen) (sym e))

lib-laws : StreamLaws lib
lib-laws = record {
  decrypt_encrypt = λ c nr key iv plain enc h. crypto-laws.decrypt_encrypt c key iv plain enc h;
  encrypt_length = λ c nr key iv plain enc h. crypto-laws.encrypt_length c key iv plain enc h;
  block_size = λ name c h. let (four, none_left) = ctr_sizes c h in (omega arith, omega arith);
  tag_size = λ name c h. let (four, none_left) = ctr_sizes c h in omega arith;
  digest_size = λ dgalg. omega arith;
  u32 = λ v small b b' h. (v ∷ [], cc h, λ rest. refl);
  hmac_length = λ dgalg key bytes. length-replicate 8 (length bytes);
}

abbrev stream : EboxStream ℕ ℕ
stream = record {
  es_ebox = record (new_ebox {EC = ℕ} {P = ℕ}) { e_key = some (1 ∷ 2 ∷ 3 ∷ []) };
  es_cipher = "aes256-ctr";
  es_mac = "sha256";
  es_chunklen = 131072;
}

abbrev sent_chunk : Chunk ℕ ℕ
sent_chunk = record {
  esc_stream = stream;
  esc_seqnr = 7;
  esc_enc = some (5 ∷ 6 ∷ 2 ∷ 2 ∷ replicate 8 4);
  esc_plain = some (5 ∷ 6 ∷ []);
}

chunk_is_encrypted :
    ebox_stream_encrypt_chunk lib (ebox_stream_chunk_new stream (5 ∷ 6 ∷ []) 7) ≡ ok tt sent_chunk
unfolding ebox_stream_encrypt_chunk ebox_stream_chunk_new new_ebox pivy.Ebox.Stream.chunk_iv
    pivy.Ebox.Stream.mac_alg pivy.Ebox.Stream.chunk_key pivy.Ebox.Stream.mac_bytes
chunk_is_encrypted = refl

chunk_is_written :
    sshbuf_put_ebox_stream_chunk lib ssh sent_chunk []
    ≡ ok tt (7 ∷ 12 ∷ 5 ∷ 6 ∷ 2 ∷ 2 ∷ replicate 8 4)
unfolding sshbuf_put_ebox_stream_chunk pivy.Box.Wire.append_to
chunk_is_written = refl

chunk-decrypt_chunk_example :
    (e : Buf) × (7 ∷ 12 ∷ 5 ∷ 6 ∷ 2 ∷ 2 ∷ replicate 8 4 ≡ [] ++ e)
    × ((rest : Buf)
        → (s' : Chunk ℕ ℕ) × (sshbuf_get_ebox_stream_chunk lib ssh stream (e ++ rest) ≡ ok s' rest)
          × (ebox_stream_decrypt_chunk lib s'
              ≡ ok tt (record s' { esc_plain = some (5 ∷ 6 ∷ []) })))
chunk-decrypt_chunk_example =
    chunk-decrypt_chunk lib lib-laws ssh ssh-laws stream (5 ∷ 6 ∷ []) 7 sent_chunk []
      (7 ∷ 12 ∷ 5 ∷ 6 ∷ 2 ∷ 2 ∷ replicate 8 4) (omega arith) chunk_is_encrypted chunk_is_written

-- Five bytes are a block, but no MAC.
abbrev short_chunk : Chunk ℕ ℕ
short_chunk = record {
  esc_stream = stream;
  esc_seqnr = 0;
  esc_enc = some (5 ∷ 6 ∷ 2 ∷ 2 ∷ 2 ∷ []);
  esc_plain = none;
}

decrypt_chunk-short_example : ebox_stream_decrypt_chunk lib short_chunk ≡ fault
unfolding new_ebox
decrypt_chunk-short_example =
    decrypt_chunk-short lib ctr 0 (1 ∷ 2 ∷ 3 ∷ []) (5 ∷ 6 ∷ 2 ∷ 2 ∷ 2 ∷ []) short_chunk refl refl
      (omega arith) refl (omega arith) refl (omega arith) refl (omega arith) (omega arith)

decrypt_chunk-Authentic_example :
    Ends
      (λ u s'.
        (body : List ℕ) × (5 ∷ 6 ∷ 2 ∷ 2 ∷ replicate 8 4 ≡ body ++ replicate 8 (length body)))
      AnyErr
      (ebox_stream_decrypt_chunk lib sent_chunk)
unfolding new_ebox
decrypt_chunk-Authentic_example =
    decrypt_chunk-Authentic lib ctr 0 (1 ∷ 2 ∷ 3 ∷ []) (5 ∷ 6 ∷ 2 ∷ 2 ∷ replicate 8 4) sent_chunk
      refl refl (omega arith) refl refl (omega arith) refl (omega arith)

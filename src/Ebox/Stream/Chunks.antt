-- ===== src/Ebox/Stream/Chunks.antt =====
-- A chunk that `ebox_stream_encrypt_chunk` encrypted, `ebox_stream_decrypt_chunk` decrypts.
use pivy.Prelude.{
  ℕ, ◌+◌, ◌-◌, ◌%◌, ◌≤◌, ◌<◌, ◌^◌, ◌≡◌, refl, sym, ap, ◌∙◌, subst, List, [], ◌∷◌, ◌++◌, true, false,
  Option, none, some, length, length-append, length-replicate, take, drop, replicate, ltb, le→ltb,
  ◌==◌, sub_size, arith,
}
use pivy.Errf.{Errf, errf, no_error}
use pivy.Outcome.{M, ok, ◌>>=◌, bind-ok, fail_if, on_error}
use pivy.Outcome.Ends.{Ends}
use pivy.Apdu.Blocks.{take-length}
use pivy.Box.Wire.{ssherrf}
use pivy.Box.Seal.{Cipher, found, must, strip_padding}
use pivy.Box.Seal.Seals.{AnyErr, Ends-same, must-Ends, pad_facts}
use pivy.Objects.{same_bytes}
use pivy.Ebox.State.{bytes_of}
use pivy.Ebox.Recovery.Padded.{strip_last}
use pivy.Ebox.Stream.{
  StreamLib, Chunk, chunk_iv, mac_alg, mac_len, chunk_key, mac_bytes, check_mac, open_chunk,
  ebox_stream_encrypt_chunk, ebox_stream_decrypt_chunk,
}
use pivy.Ebox.Stream.Laws.{StreamLaws, iv-Ends, mac-Ends, key-Ends}

same_bytes-same : (bytes : List ℕ) → same_bytes bytes bytes ≡ true
unfolding same_bytes
same_bytes-same [] = refl
same_bytes-same (b ∷ bytes) = let rest = same_bytes-same bytes in ground (arith, rest)

drop-length : (xs ys : List ℕ) (n : ℕ) → n ≡ length xs → drop n (xs ++ ys) ≡ ys
drop-length [] ys n h = rw h refl
drop-length (x ∷ xs) ys n h = rw h (drop-length xs ys (length xs) refl)

-- The length without what stands at the end.
front_size : (a n m : ℕ) → a ≡ n + m → n < 2 ^ 64 → sub_size a m ≡ n
front_size a n m h small = rw h (omega arith)

-- The padding is stripped from what is in front of a tag.
stripped :
    {S A : Type 0} (w : Errf → Errf) (blocksz : ℕ) (d : List ℕ) (pad tag : ℕ) (l : List ℕ)
    (f : ℕ → M S A) (s : S)
    → length l ≡ length d + pad + tag
    → 0 < pad
    → pad ≤ blocksz
    → length d + pad < 2 ^ 64
    → tag < 256
    → (on_error w (strip_padding blocksz (sub_size (length l) tag) (d ++ replicate pad pad)) >>= f)
        s
      ≡ f (length d) s
stripped w blocksz d pad tag l f s size low high room small =
    rw (front_size (length l) (length d + pad) tag size room)
      (strip_last w blocksz d pad f s low high room)

module _ {EC P : Type 0} (lib : StreamLib EC P) (laws : StreamLaws lib) where
  abbrev pad_of : Cipher → List ℕ → ℕ
  pad_of c d = c.cipher_blocksize - length d % c.cipher_blocksize

  mac_bytes-length :
      (dgalg : Option ℕ) (key enc : List ℕ)
      → length (mac_bytes lib dgalg key enc) ≡ mac_len lib dgalg
  unfolding mac_bytes mac_len
  mac_bytes-length none key enc = refl
  mac_bytes-length (some dgalg) key enc = laws.hmac_length dgalg key enc

  mac_len-small : (dgalg : Option ℕ) → mac_len lib dgalg < 256
  unfolding mac_len
  mac_len-small none = omega arith
  mac_len-small (some dgalg) = laws.digest_size dgalg

  check_mac_lem :
      {S : Type 0} (dgalg : Option ℕ) (key enc : List ℕ) (s : S)
      → length enc < 2 ^ 63
      → check_mac lib dgalg key (enc ++ mac_bytes lib dgalg key enc) s ≡ ok tt s
  unfolding check_mac mac_bytes
  check_mac_lem none key enc s small = refl
  check_mac_lem (some dgalg) key enc s small =
      let mac = lib.ssh_hmac dgalg key enc in
      let whole : length (enc ++ mac) ≡ length enc + lib.crypto.ssh_digest_bytes dgalg =
        length-append enc mac ∙ ap (λ n. length enc + n) (laws.hmac_length dgalg key enc) in
      let front : sub_size (length (enc ++ mac)) (lib.crypto.ssh_digest_bytes dgalg) ≡ length enc =
        front_size (length (enc ++ mac)) (length enc) (lib.crypto.ssh_digest_bytes dgalg) whole
          (omega arith) in
      let inside : ltb (length (enc ++ mac)) (length enc) ≡ false = le→ltb _ _ (omega arith) in
      rw
        (
          front,
          inside,
          take-length enc mac (length enc) refl,
          drop-length enc mac (length enc) refl,
          same_bytes-same mac,
        )
        refl

  -- A chunk in which `d` is encrypted.
  pub record Sent (d : List ℕ) (s : Chunk EC P) : Type 0 where
    pub cipher : Cipher
    pub iv : List ℕ
    pub dgalg : Option ℕ
    pub key : List ℕ
    pub enc : List ℕ
    pub by_name : lib.crypto.cipher_by_name s.esc_stream.es_cipher ≡ some cipher
    pub has_iv : (t : Chunk EC P) → chunk_iv cipher s.esc_seqnr t ≡ ok iv t
    pub has_mac : (t : Chunk EC P) → mac_alg lib cipher s.esc_stream.es_mac t ≡ ok dgalg t
    pub has_key : (t : Chunk EC P) → chunk_key lib cipher s.esc_stream.es_ebox t ≡ ok key t
    pub encrypted :
        lib.encrypt_nr cipher s.esc_seqnr key iv
          (d ++ replicate (pad_of cipher d) (pad_of cipher d % 256))
        ≡ some enc
    pub has_enc : s.esc_enc ≡ some (enc ++ mac_bytes lib dgalg key enc)

  pub encrypt-Sent :
      (d : List ℕ) (s : Chunk EC P)
      → s.esc_plain ≡ some d
      → Ends
          (λ u s'.
            Sent d (record s' { esc_plain = none }) × (s' ≡ record s { esc_enc = s'.esc_enc }))
          AnyErr
          (ebox_stream_encrypt_chunk lib s)
  unfolding ebox_stream_encrypt_chunk
  encrypt-Sent d s holds =
      Ends-same _ _ (must (lib.crypto.cipher_by_name s.esc_stream.es_cipher)) _ s (must-Ends _ s)
        (λ c by_name.
          Ends-same _ _ (chunk_iv c s.esc_seqnr) _ s (iv-Ends c s.esc_seqnr s) (λ iv has_iv.
            Ends-same _ _ (mac_alg lib c s.esc_stream.es_mac) _ s
              (mac-Ends lib c s.esc_stream.es_mac s)
              (λ dgalg has_mac.
                Ends-same _ _ (chunk_key lib c s.esc_stream.es_ebox) _ s
                  (key-Ends lib c s.esc_stream.es_ebox s)
                  (λ key has_key.
                    let divides : (c.cipher_blocksize == 0) ≡ false =
                      let (low, high) = laws.block_size s.esc_stream.es_cipher c by_name in
                      ground arith in
                    rw divides (
                      Ends-same _ _
                        (must (
                          lib.encrypt_nr c s.esc_seqnr key iv (
                            bytes_of s.esc_plain
                            ++ replicate (pad_of c (bytes_of s.esc_plain))
                                (pad_of c (bytes_of s.esc_plain) % 256))))
                        _ s (must-Ends _ s)
                        (λ enc made. (
                          record {
                            cipher = c;
                            iv = iv;
                            dgalg = dgalg;
                            key = key;
                            enc = enc;
                            by_name = by_name;
                            has_iv = has_iv;
                            has_mac = has_mac;
                            has_key = has_key;
                            encrypted =
                                subst
                                  (λ o.
                                    lib.encrypt_nr c s.esc_seqnr key iv (
                                      bytes_of o
                                      ++ replicate (pad_of c (bytes_of o))
                                          (pad_of c (bytes_of o) % 256))
                                    ≡ some enc)
                                  holds made;
                            has_enc = refl;
                          },
                          refl,
                        )))))))

  pub decrypt-Sent :
      (d : List ℕ) (s : Chunk EC P)
      → Sent d s
      → length d < 2 ^ 62
      → ebox_stream_decrypt_chunk lib s ≡ ok tt (record s { esc_plain = some d })
  unfolding ebox_stream_decrypt_chunk open_chunk
  decrypt-Sent d s e room =
      let c = e.cipher in
      let (low, high) = laws.block_size s.esc_stream.es_cipher c e.by_name in
      let auth = laws.tag_size s.esc_stream.es_cipher c e.by_name in
      let (f1, f2, f3, f4) = pad_facts c.cipher_blocksize (length d) low high in
      let pad = pad_of c d in
      let made : lib.encrypt_nr c s.esc_seqnr e.key e.iv (d ++ replicate pad pad) ≡ some e.enc =
        subst (λ k. lib.encrypt_nr c s.esc_seqnr e.key e.iv (d ++ replicate pad k) ≡ some e.enc) f4
          e.encrypted in
      let size : length e.enc ≡ length d + pad + c.cipher_authlen =
        laws.encrypt_length c s.esc_seqnr e.key e.iv _ e.enc made
        ∙ ap (λ n. n + c.cipher_authlen)
            (length-append d (replicate pad pad)
              ∙ ap (λ n. length d + n) (length-replicate pad pad)) in
      let mac = mac_bytes lib e.dgalg e.key e.enc in
      let mac_size = mac_bytes-length e.dgalg e.key e.enc in
      let mac_small = mac_len-small e.dgalg in
      let whole : length (e.enc ++ mac) ≡ length e.enc + mac_len lib e.dgalg =
        length-append e.enc mac ∙ ap (λ n. length e.enc + n) mac_size in
      let front : sub_size (length (e.enc ++ mac)) (mac_len lib e.dgalg) ≡ length e.enc =
        front_size (length (e.enc ++ mac)) (length e.enc) (mac_len lib e.dgalg) whole
          (omega arith) in
      let sent : take (sub_size (length (e.enc ++ mac)) (mac_len lib e.dgalg)) (e.enc ++ mac)
          ≡ e.enc =
        ap (λ n. take n (e.enc ++ mac)) front ∙ take-length e.enc mac (length e.enc) refl in
      let inner : sub_size (length e.enc) c.cipher_authlen ≡ length d + pad =
        front_size (length e.enc) (length d + pad) c.cipher_authlen size (omega arith) in
      let fits : ltb (length (e.enc ++ mac)) (c.cipher_authlen + c.cipher_blocksize) ≡ false =
        le→ltb _ _ (omega arith) in
      let t = record s { esc_enc = some (e.enc ++ mac) } in
      let same : t ≡ s = ap (λ o. record s { esc_enc = o }) (sym e.has_enc) in
      subst (λ t. ebox_stream_decrypt_chunk lib t ≡ ok tt (record t { esc_plain = some d })) same
        (bind-ok (must (lib.crypto.cipher_by_name s.esc_stream.es_cipher)) _ t c t
            (ap (λ o. must o t) e.by_name)
          ∙ bind-ok (chunk_iv c s.esc_seqnr) _ t e.iv t (e.has_iv t)
          ∙ bind-ok (mac_alg lib c s.esc_stream.es_mac) _ t e.dgalg t (e.has_mac t)
          ∙ bind-ok (chunk_key lib c s.esc_stream.es_ebox) _ t e.key t (e.has_key t)
          ∙ bind-ok
              (fail_if (ltb (length (e.enc ++ mac)) (c.cipher_authlen + c.cipher_blocksize))
                (errf "LengthError" no_error))
              _ t tt t (ap (λ b. fail_if b (errf "LengthError" no_error) t) fits)
          ∙ bind-ok (check_mac lib e.dgalg e.key (e.enc ++ mac)) _ t tt t
              (check_mac_lem e.dgalg e.key e.enc t (omega arith))
          ∙ bind-ok
              (found
                (lib.decrypt_nr c s.esc_seqnr e.key e.iv
                  (take (sub_size (length (e.enc ++ mac)) (mac_len lib e.dgalg)) (e.enc ++ mac)))
                ssherrf)
              _ t (d ++ replicate pad pad) t
              (rw
                (
                  sent,
                  laws.decrypt_encrypt c s.esc_seqnr e.key e.iv (d ++ replicate pad pad) e.enc made,
                )
                refl)
          ∙ stripped _ c.cipher_blocksize d pad _ _ _ t (ap length sent ∙ size) f1 f2 (omega arith)
              auth
          ∙ ap (λ l. ok tt (record t { esc_plain = some l }))
              (take-length d (replicate pad pad) (length d) refl))

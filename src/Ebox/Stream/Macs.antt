-- ===== src/Ebox/Stream/Macs.antt =====
-- The MAC of a chunk, for a cipher without a tag.
use pivy.Prelude.{
  ℕ, ◌+◌, ◌-◌, ◌≤◌, ◌<◌, ◌^◌, ◌≡◌, refl, sym, ap, ◌∙◌, subst, List, [], ◌∷◌, ◌++◌, true, false,
  Bool-cases, inl, inr, some, String, length, take, drop, replicate, ltb, le→ltb, lt→ltb, ◌==◌,
  sub_size, arith,
}
use pivy.Tlv.Write.{octet}
use pivy.Errf.{errf, no_error}
use pivy.Outcome.{Outcome, ok, err, abort, fault, stuck, bind-ok, bind-fault, fail_if}
use pivy.Outcome.Ends.{Ends, Ends-bind}
use pivy.Apdu.Blocks.{take_append_drop}
use pivy.Box.Seal.{Cipher, must}
use pivy.Box.Seal.Seals.{AnyErr}
use pivy.Objects.{same_bytes}
use pivy.Ebox.State.{Ebox}
use pivy.Ebox.Stream.{
  StreamLib, Chunk, chunk_iv, mac_alg, chunk_key, check_mac, open_chunk, ebox_stream_decrypt_chunk,
}

abbrev be_iv : Cipher → ℕ → List ℕ
be_iv c nr = octet nr 3 ∷ octet nr 2 ∷ octet nr 1 ∷ octet nr 0 ∷ replicate (c.cipher_ivlen - 4) 0

iv_given :
    {S : Type 0} (c : Cipher) (nr : ℕ) (t : S)
    → 4 ≤ c.cipher_ivlen
    → chunk_iv c nr t ≡ ok (be_iv c nr) t
unfolding chunk_iv
iv_given c nr t h =
    let some_iv : ltb 0 c.cipher_ivlen ≡ true = lt→ltb _ _ (omega arith) in
    let room : ltb c.cipher_ivlen 4 ≡ false = le→ltb _ _ h in rw (some_iv, room) refl

same_bytes-true : (xs ys : List ℕ) → same_bytes xs ys ≡ true → xs ≡ ys
unfolding same_bytes
same_bytes-true [] [] h = refl
same_bytes-true [] (y ∷ ys) h = absurd (cc h)
same_bytes-true (x ∷ xs) [] h = absurd (cc h)
same_bytes-true (x ∷ xs) (y ∷ ys) h = elim (Bool-cases (x == y)) [
  | inl e ↦
      let rest : same_bytes xs ys ≡ true = sym (rw e refl) ∙ h in
      let one : x ≡ y = ground arith in
      ap (λ v. v ∷ xs) one ∙ ap (λ l. y ∷ l) (same_bytes-true xs ys rest)
  | inr e ↦ let bad : false ≡ true = sym (rw e refl) ∙ h in absurd (cc bad)
]

always : {S A : Type 0} (V : Type 0) → V → (o : Outcome S A) → Ends (λ a s. V) AnyErr o
always V v (ok a s) = v
always V v (err e s) = tt
always V v abort = tt
always V v fault = tt
always V v stuck = tt

module _ {EC P : Type 0} (lib : StreamLib EC P) where
  mac_given :
      {S : Type 0} (c : Cipher) (name : String) (dgalg : ℕ) (t : S)
      → c.cipher_authlen ≡ 0
      → lib.crypto.ssh_digest_alg_by_name name ≡ some dgalg
      → mac_alg lib c name t ≡ ok (some dgalg) t
  unfolding mac_alg
  mac_given c name dgalg t bare known =
      let untagged : (c.cipher_authlen == 0) ≡ true = ground arith in rw (untagged, known) refl

  key_given :
      {S : Type 0} (c : Cipher) (box : Ebox EC P) (key : List ℕ) (t : S)
      → box.e_key ≡ some key
      → c.cipher_keylen ≤ length key
      → chunk_key lib c box t ≡ ok (take c.cipher_keylen key) t
  unfolding chunk_key
  key_given c box key t holds long =
      let room : ltb (length key) c.cipher_keylen ≡ false = le→ltb _ _ long in rw (holds, room) refl

  short_mac :
      {S : Type 0} (dgalg : ℕ) (key enc : List ℕ) (t : S)
      → length enc < lib.crypto.ssh_digest_bytes dgalg
      → lib.crypto.ssh_digest_bytes dgalg < 2 ^ 32
      → check_mac lib (some dgalg) key enc t ≡ fault
  unfolding check_mac
  short_mac dgalg key enc t few small =
      let wraps : ltb (length enc) (sub_size (length enc) (lib.crypto.ssh_digest_bytes dgalg))
          ≡ true =
        lt→ltb _ _ (omega arith) in
      rw wraps refl

  -- The chunk up to its MAC.
  to_mac :
      (c : Cipher) (dgalg : ℕ) (key enc : List ℕ) (s : Chunk EC P)
      → lib.crypto.cipher_by_name s.esc_stream.es_cipher ≡ some c
      → c.cipher_authlen ≡ 0
      → 4 ≤ c.cipher_ivlen
      → lib.crypto.ssh_digest_alg_by_name s.esc_stream.es_mac ≡ some dgalg
      → s.esc_stream.es_ebox.e_key ≡ some key
      → c.cipher_keylen ≤ length key
      → s.esc_enc ≡ some enc
      → c.cipher_blocksize ≤ length enc
      → ebox_stream_decrypt_chunk lib s
        ≡ open_chunk lib s c (be_iv c s.esc_seqnr) (some dgalg) (take c.cipher_keylen key) enc s
  unfolding ebox_stream_decrypt_chunk
  to_mac c dgalg key enc s by_name bare ivs known holds long has_enc block =
      let t = record s { esc_enc = some enc } in
      let same : t ≡ s = ap (λ o. record s { esc_enc = o }) (sym has_enc) in
      let fits : ltb (length enc) (c.cipher_authlen + c.cipher_blocksize) ≡ false =
        le→ltb _ _ (omega arith) in
      subst
        (λ (t : Chunk EC P).
          ebox_stream_decrypt_chunk lib t
          ≡ open_chunk lib t c (be_iv c t.esc_seqnr) (some dgalg) (take c.cipher_keylen key) enc t)
        same
        (bind-ok (must (lib.crypto.cipher_by_name s.esc_stream.es_cipher)) _ t c t
            (ap (λ o. must o t) by_name)
          ∙ bind-ok (chunk_iv c s.esc_seqnr) _ t (be_iv c s.esc_seqnr) t
              (iv_given c s.esc_seqnr t ivs)
          ∙ bind-ok (mac_alg lib c s.esc_stream.es_mac) _ t (some dgalg) t
              (mac_given c s.esc_stream.es_mac dgalg t bare known)
          ∙ bind-ok (chunk_key lib c s.esc_stream.es_ebox) _ t (take c.cipher_keylen key) t
              (key_given c s.esc_stream.es_ebox key t holds long)
          ∙ bind-ok
              (fail_if (ltb (length enc) (c.cipher_authlen + c.cipher_blocksize))
                (errf "LengthError" no_error))
              _ t tt t (ap (λ b. fail_if b (errf "LengthError" no_error) t) fits))

  -- A chunk that is shorter than its MAC, but not than a block, makes `ebox_stream_decrypt_chunk` read
  -- outside of it: the test of its length leaves the MAC out.
  pub decrypt_chunk-short :
      (c : Cipher) (dgalg : ℕ) (key enc : List ℕ) (s : Chunk EC P)
      → lib.crypto.cipher_by_name s.esc_stream.es_cipher ≡ some c
      → c.cipher_authlen ≡ 0
      → 4 ≤ c.cipher_ivlen
      → lib.crypto.ssh_digest_alg_by_name s.esc_stream.es_mac ≡ some dgalg
      → lib.crypto.ssh_digest_bytes dgalg < 2 ^ 32
      → s.esc_stream.es_ebox.e_key ≡ some key
      → c.cipher_keylen ≤ length key
      → s.esc_enc ≡ some enc
      → c.cipher_blocksize ≤ length enc
      → length enc < lib.crypto.ssh_digest_bytes dgalg
      → ebox_stream_decrypt_chunk lib s ≡ fault
  unfolding open_chunk
  decrypt_chunk-short c dgalg key enc s by_name bare ivs known small holds long has_enc block few =
      to_mac c dgalg key enc s by_name bare ivs known holds long has_enc block
      ∙ bind-fault (check_mac lib (some dgalg) (take c.cipher_keylen key) enc) _ s
          (short_mac dgalg (take c.cipher_keylen key) enc s few small)

  check-Authentic :
      {S : Type 0} (dgalg : ℕ) (key enc : List ℕ) (s : S)
      → Ends
          (λ u s'. (body : List ℕ) × (enc ≡ body ++ lib.ssh_hmac dgalg key body))
          AnyErr
          (check_mac lib (some dgalg) key enc s)
  unfolding check_mac
  check-Authentic dgalg key enc s =
      let n = sub_size (length enc) (lib.crypto.ssh_digest_bytes dgalg) in
      elim (Bool-cases (ltb (length enc) n)) [
        | inl outside ↦ rw outside tt
        | inr inside ↦
            elim (Bool-cases (same_bytes (lib.ssh_hmac dgalg key (take n enc)) (drop n enc))) [
              | inl same ↦
                  rw (inside, same)
                    (
                      take n enc,
                      sym (take_append_drop n enc)
                          ∙ ap (λ l. take n enc ++ l)
                              (sym (
                                same_bytes-true (lib.ssh_hmac dgalg key (take n enc)) (drop n enc)
                                  same)),
                    )
              | inr differ ↦ rw (inside, differ) tt
            ]
      ]

  -- A chunk with a MAC, for a cipher without a tag: if `ebox_stream_decrypt_chunk` returns, then the
  -- chunk is some bytes and the HMAC of just these bytes, made with the key of the ebox.
  pub decrypt_chunk-Authentic :
      (c : Cipher) (dgalg : ℕ) (key enc : List ℕ) (s : Chunk EC P)
      → lib.crypto.cipher_by_name s.esc_stream.es_cipher ≡ some c
      → c.cipher_authlen ≡ 0
      → 4 ≤ c.cipher_ivlen
      → lib.crypto.ssh_digest_alg_by_name s.esc_stream.es_mac ≡ some dgalg
      → s.esc_stream.es_ebox.e_key ≡ some key
      → c.cipher_keylen ≤ length key
      → s.esc_enc ≡ some enc
      → c.cipher_blocksize ≤ length enc
      → Ends
          (λ u s'.
            (body : List ℕ) × (enc ≡ body ++ lib.ssh_hmac dgalg (take c.cipher_keylen key) body))
          AnyErr
          (ebox_stream_decrypt_chunk lib s)
  unfolding open_chunk
  decrypt_chunk-Authentic c dgalg key enc s by_name bare ivs known holds long has_enc block =
      let k = take c.cipher_keylen key in
      subst (Ends (λ u s'. (body : List ℕ) × (enc ≡ body ++ lib.ssh_hmac dgalg k body)) AnyErr)
        (sym (to_mac c dgalg key enc s by_name bare ivs known holds long has_enc block))
        (Ends-bind (λ u s'. (body : List ℕ) × (enc ≡ body ++ lib.ssh_hmac dgalg k body)) _ AnyErr
          (check_mac lib (some dgalg) k enc) _ s (check-Authentic dgalg k enc s)
          (λ u s' valid. always _ valid _))

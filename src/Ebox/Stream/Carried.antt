-- ===== src/Ebox/Stream/Carried.antt =====
-- A chunk that is encrypted and written is read and decrypted.
use pivy.Prelude.{
  ℕ, ◌%◌, ◌<◌, ◌^◌, ◌≡◌, refl, sym, ap, ◌∙◌, subst, List, ◌++◌, Option, none, some, length, arith,
}
use pivy.Outcome.{ok}
use pivy.Outcome.Ends.{Ends}
use pivy.Box.Seal.Seals.{AnyErr}
use pivy.Box.{boxderrf}
use pivy.Box.Wire.{SshBuf, Buf}
use pivy.Box.Wire.Carries.{Carries, Carries-bind, Carries-then}
use pivy.Box.Wire.Fields.{SshBufLaws}
use pivy.Ebox.Template.Readers.{read-Carries, on_error-Carries}
use pivy.Ebox.Stream.{
  StreamLib, EboxStream, Chunk, mac_bytes, ebox_stream_encrypt_chunk, ebox_stream_decrypt_chunk,
  ebox_stream_chunk_new, sshbuf_put_ebox_stream_chunk, sshbuf_get_ebox_stream_chunk,
}
use pivy.Ebox.Stream.Laws.{StreamLaws}
use pivy.Ebox.Stream.Chunks.{Sent, encrypt-Sent, decrypt-Sent}

module _ {EC P : Type 0} (lib : StreamLib EC P) (laws : StreamLaws lib) (ssh : SshBuf EC)
    (ssh_laws : SshBufLaws ssh) where
  put_chunk-Carries :
      (es : EboxStream EC P) (nr : ℕ) (enc : List ℕ) (plain : Option (List ℕ))
      → nr < 2 ^ 32
      → Carries
          (sshbuf_put_ebox_stream_chunk lib ssh
            (record { esc_stream = es; esc_seqnr = nr; esc_enc = some enc; esc_plain = plain }))
          (sshbuf_get_ebox_stream_chunk lib ssh es)
          (record { esc_stream = es; esc_seqnr = nr; esc_enc = some enc; esc_plain = none })
  unfolding sshbuf_put_ebox_stream_chunk sshbuf_get_ebox_stream_chunk
  put_chunk-Carries es nr enc plain small =
      Carries-bind _ _ _ _ nr _
        (on_error-Carries boxderrf _ _ nr
          (read-Carries (lib.put_u32 nr) lib.get_u32 nr (laws.u32 nr small)))
        (Carries-then _ _ _ enc _
          (on_error-Carries boxderrf _ _ enc
            (read-Carries (ssh.put_string enc) ssh.get_string enc (ssh_laws.string enc)))
          (λ b. refl))

  -- Data in a chunk of a stream comes through: when `ebox_stream_encrypt_chunk` encrypts it and
  -- `sshbuf_put_ebox_stream_chunk` appends the chunk, then `sshbuf_get_ebox_stream_chunk` reads from
  -- the front of any buffer a chunk of the same stream, which `ebox_stream_decrypt_chunk` decrypts
  -- to the data.
  pub chunk-decrypt_chunk :
      (es : EboxStream EC P) (d : List ℕ) (nr : ℕ) (s : Chunk EC P) (b b' : Buf)
      → length d < 2 ^ 62
      → ebox_stream_encrypt_chunk lib (ebox_stream_chunk_new es d nr) ≡ ok tt s
      → sshbuf_put_ebox_stream_chunk lib ssh s b ≡ ok tt b'
      → (e : Buf) × (b' ≡ b ++ e)
        × ((rest : Buf)
            → (s' : Chunk EC P) × (sshbuf_get_ebox_stream_chunk lib ssh es (e ++ rest) ≡ ok s' rest)
              × (ebox_stream_decrypt_chunk lib s' ≡ ok tt (record s' { esc_plain = some d })))
  unfolding ebox_stream_chunk_new Carries
  chunk-decrypt_chunk es d nr s b b' room encrypts puts =
      let (sent, same) =
        subst
          (λ o.
            Ends
              (λ u s'.
                Sent lib laws d (record s' { esc_plain = none })
                × (s' ≡ record (ebox_stream_chunk_new es d nr) { esc_enc = s'.esc_enc }))
              AnyErr o)
          encrypts (encrypt-Sent lib laws d (ebox_stream_chunk_new es d nr) refl) in
      let full = sent.enc ++ mac_bytes lib sent.dgalg sent.key sent.enc in
      let plain : s.esc_plain ≡ some d = ap (λ (t : Chunk EC P). t.esc_plain) same in
      let made : s ≡ record (ebox_stream_chunk_new es d nr) { esc_enc = some full } =
        same ∙ ap (λ o. record (ebox_stream_chunk_new es d nr) { esc_enc = o }) sent.has_enc in
      let (e, left, back) =
        put_chunk-Carries es (nr % 2 ^ 32) full (some d) (omega arith) b b'
          (ap (λ t. sshbuf_put_ebox_stream_chunk lib ssh t b) (sym made) ∙ puts) in
      (
        e,
        left,
        λ rest. (
          record (ebox_stream_chunk_new es d nr) { esc_enc = some full; esc_plain = none },
          back rest,
          subst
              (λ (t : Chunk EC P).
                ebox_stream_decrypt_chunk lib (record t { esc_plain = none })
                ≡ ok tt (record t { esc_plain = some d }))
              made (decrypt-Sent lib laws d (record s { esc_plain = none }) sent room),
        ),
      )

-- ===== src/Ebox/Recovery/Padded.antt =====
-- `ebox_decrypt_recovery` decrypts what `ebox_encrypt_recovery` encrypted.
use pivy.Prelude.{
  ℕ, ◌+◌, ◌-◌, ◌%◌, ◌≤◌, ◌<◌, ◌^◌, ◌≡◌, refl, sym, ap, ◌∙◌, subst, List, ◌++◌, Bool, true, false,
  some, length, length-append, length-replicate, replicate, ltb, le→ltb, lt→ltb, ◌==◌, arith,
}
use pivy.Errf.{Errf}
use pivy.Outcome.{M, ok, ◌>>=◌, bind-ok, on_error, verify}
use pivy.Apdu.Blocks.{take-length, take_all}
use pivy.Box.Seal.{Cipher, Crypto, must, strip_padding}
use pivy.Box.Seal.Padding.{strip_padding-replicate}
use pivy.Outcome.Ends.{Ends}
use pivy.Box.Seal.Seals.{CryptoLaws, AnyErr, Ends-same, must-Ends, pad_facts}
use pivy.Ebox.State.{Ebox, bytes_of}
use pivy.Ebox.Recovery.{ebox_decrypt_recovery, ebox_encrypt_recovery}

abbrev pad_of : Cipher → List ℕ → ℕ
pad_of c plain = c.cipher_blocksize - length plain % c.cipher_blocksize

verify-Ends :
    {S : Type 0} (b : Bool) (s : S) → Ends (λ u s'. (b ≡ true) × (s' ≡ s)) AnyErr (verify b s)
verify-Ends true s = (refl, refl)
verify-Ends false s = tt

pub strip_last :
    {S A : Type 0} (w : Errf → Errf) (blocksz : ℕ) (plain : List ℕ) (pad : ℕ) (f : ℕ → M S A)
    (s : S)
    → 0 < pad
    → pad ≤ blocksz
    → length plain + pad < 2 ^ 64
    → (on_error w (strip_padding blocksz (length plain + pad) (plain ++ replicate pad pad)) >>= f) s
      ≡ f (length plain) s
strip_last w blocksz plain pad f s low high room =
    bind-ok (on_error w (strip_padding blocksz (length plain + pad) (plain ++ replicate pad pad))) f
      s (length plain) s
      (rw (strip_padding-replicate blocksz plain pad s low high room, on_error) refl)

module _ {EC P : Type 0} (crypto : Crypto EC P) where
  -- The recovery box of an ebox, in which `plain` is encrypted with `key`.
  pub record Encrypted (key iv plain : List ℕ) (box : Ebox EC P) : Type 0 where
    pub cipher : Cipher
    pub enc : List ℕ
    pub by_name : crypto.cipher_by_name box.e_rcv_cipher ≡ some cipher
    pub tagged : 0 < cipher.cipher_authlen
    pub encrypted :
        crypto.encrypt cipher key iv
          (plain ++ replicate (pad_of cipher plain) (pad_of cipher plain % 256))
        ≡ some enc
    pub has_iv : box.e_rcv_iv ≡ some iv
    pub has_enc : box.e_rcv_enc ≡ some enc
    pub has_key : box.e_rcv_key ≡ some key

  -- The same recovery box in another ebox.
  pub Encrypted-copy :
      (key iv plain : List ℕ) (box box' : Ebox EC P)
      → box'.e_rcv_cipher ≡ box.e_rcv_cipher
      → box'.e_rcv_iv ≡ box.e_rcv_iv
      → box'.e_rcv_enc ≡ box.e_rcv_enc
      → box'.e_rcv_key ≡ box.e_rcv_key
      → Encrypted key iv plain box
      → Encrypted key iv plain box'
  Encrypted-copy key iv plain box box' e1 e2 e3 e4 e = record {
    cipher = e.cipher;
    enc = e.enc;
    by_name = ap crypto.cipher_by_name e1 ∙ e.by_name;
    tagged = e.tagged;
    encrypted = e.encrypted;
    has_iv = e2 ∙ e.has_iv;
    has_enc = e3 ∙ e.has_enc;
    has_key = e4 ∙ e.has_key;
  }

  module _ (laws : CryptoLaws crypto) where
    pub encrypt-Ends :
        (iv key plain : List ℕ) (box : Ebox EC P)
        → box.e_rcv_plain ≡ some plain
        → Ends
            (λ u b.
              Encrypted key iv plain b
              × (b ≡ record box {
                e_rcv_plain = b.e_rcv_plain;
                e_rcv_iv = b.e_rcv_iv;
                e_rcv_key = b.e_rcv_key;
                e_rcv_enc = b.e_rcv_enc;
              }))
            AnyErr
            (ebox_encrypt_recovery crypto iv key box)
    unfolding ebox_encrypt_recovery
    encrypt-Ends iv key plain box holds =
        Ends-same _ _ (must (crypto.cipher_by_name box.e_rcv_cipher)) _ box (must-Ends _ box)
          (λ c by_name.
            Ends-same (λ u. ltb 0 c.cipher_authlen ≡ true) _ (verify (ltb 0 c.cipher_authlen)) _ box
              (verify-Ends _ box)
              (λ u tagged.
                let divides : (c.cipher_blocksize == 0) ≡ false =
                  let (low, high) = laws.block_size box.e_rcv_cipher c by_name in ground arith in
                rw divides (
                  Ends-same _ _
                    (must (
                      crypto.encrypt c key iv (
                        bytes_of box.e_rcv_plain
                        ++ replicate (pad_of c (bytes_of box.e_rcv_plain))
                            (pad_of c (bytes_of box.e_rcv_plain) % 256))))
                    _ box (must-Ends _ box)
                    (λ enc made. (
                      record {
                        cipher = c;
                        enc = enc;
                        by_name = by_name;
                        tagged = ground arith;
                        encrypted =
                            subst
                              (λ o.
                                crypto.encrypt c key iv (
                                  bytes_of o
                                  ++ replicate (pad_of c (bytes_of o))
                                      (pad_of c (bytes_of o) % 256))
                                ≡ some enc)
                              holds made;
                        has_iv = refl;
                        has_enc = refl;
                        has_key = refl;
                      },
                      refl,
                    )))))

    pub decrypt-Encrypted :
        (key iv plain : List ℕ) (box : Ebox EC P)
        → (e : Encrypted key iv plain box) → length iv ≡ e.cipher.cipher_ivlen
        → length key ≡ e.cipher.cipher_keylen
        → length plain < 2 ^ 63
        → ebox_decrypt_recovery crypto box ≡ ok tt (record box { e_rcv_plain = some plain })
    unfolding ebox_decrypt_recovery
    decrypt-Encrypted key iv plain box e ivs keys room =
        let c = e.cipher in
        let (low, high) = laws.block_size box.e_rcv_cipher c e.by_name in
        let auth = laws.tag_size box.e_rcv_cipher c e.by_name in
        let (f1, f2, f3, f4) = pad_facts c.cipher_blocksize (length plain) low high in
        let pad = pad_of c plain in
        let sent : crypto.encrypt c key iv (plain ++ replicate pad pad) ≡ some e.enc =
          subst (λ k. crypto.encrypt c key iv (plain ++ replicate pad k) ≡ some e.enc) f4
            e.encrypted in
        let size : length e.enc ≡ length plain + pad + c.cipher_authlen =
          laws.encrypt_length c key iv _ e.enc sent
          ∙ ap (λ n. n + c.cipher_authlen)
              (length-append plain (replicate pad pad)
                ∙ ap (λ n. length plain + n) (length-replicate pad pad)) in
        let tag : ltb 0 c.cipher_authlen ≡ true = lt→ltb 0 c.cipher_authlen e.tagged in
        let iv_fits : ltb (length iv) c.cipher_ivlen ≡ false = le→ltb _ _ (omega arith) in
        let key_fits : ltb (length key) c.cipher_keylen ≡ false = le→ltb _ _ (omega arith) in
        let enc_fits : ltb (length e.enc) (c.cipher_blocksize + c.cipher_authlen) ≡ false =
          le→ltb _ _ (omega arith) in
        let rest : length e.enc - c.cipher_authlen ≡ length plain + pad = omega arith in
        rw
          (
            e.by_name,
            tag,
            e.has_iv,
            iv_fits,
            e.has_key,
            key_fits,
            e.has_enc,
            enc_fits,
            take_all key c.cipher_keylen (sym keys),
            take_all iv c.cipher_ivlen (sym ivs),
            laws.decrypt_encrypt c key iv (plain ++ replicate pad pad) e.enc sent,
            rest,
          )
          (strip_last _ c.cipher_blocksize plain pad _ _ f1 f2 (omega arith)
            ∙ rw (take-length plain (replicate pad pad) (length plain) refl) refl)

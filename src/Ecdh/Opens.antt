-- ===== src/Ecdh/Opens.antt =====
-- A card that answers an ECDH as its key would opens the boxes that the key opens.
use pivy.Prelude.{
  ℕ, zero, suc, ◌+◌, ◌≡◌, refl, sym, ap, ◌∙◌, ◌-◌, Bool, false, not, ◌||◌, get_elem?, ltb, sub_size,
  ◌==◌, if◌then◌else◌, subst, List, Option, none, some, arith,
}
use pivy.Outcome.{Outcome, ok, bind-ok, bind_returns, bind-cong, M, ◌>>=◌, ◌>>◌, pure, put, fail_if}
use pivy.Token.{PivSlot}
use pivy.Pin.{Piv}
use pivy.Box.{PivBox, non_null, boxderrf, buf_slice, verifyb}
use pivy.Box.Wire.{SshKey, ec_of}
use pivy.Errf.{errf, no_error}
use pivy.Box.Seal.{
  Crypto, Box, Cipher, found, must, nonce_bytes, padding_loop, strip_padding, open_algs, open_with,
  piv_box_open_offline,
}
use pivy.Ecdh.{
  card_algs, card_open_with, card_padding_loop, card_strip_padding, piv_ecdh, on_box, from_card,
  piv_box_open,
}

module _ {EC P : Type 0} (crypto : Crypto EC P) where
  -- The two copies of the code that opens a box do the same.
  algs-card : (box s : Box crypto) → card_algs crypto box s ≡ open_algs crypto box s
  unfolding card_algs open_algs
  algs-card box s = refl

  -- Two sequences that begin alike.
  bind-ext :
      {S A B : Type 0} (m : M S A) (f g : A → M S B) (s : S)
      → ((a : A) (s' : S) → f a s' ≡ g a s')
      → (m >>= f) s ≡ (m >>= g) s
  bind-ext {S} {A} {B} m f g s same = go (m s)
    where
      go : (o : Outcome S A) → ((λ (_ : S). o) >>= f) s ≡ ((λ (_ : S). o) >>= g) s
      go (ok a s') = same a s'
      go (Outcome.err e s') = refl
      go Outcome.abort = refl
      go Outcome.fault = refl
      go Outcome.stuck = refl

  padding_loop-card :
      {S : Type 0} (plain : List ℕ) (padding i n : ℕ)
      → card_padding_loop {S = S} plain padding i n ≡ padding_loop {S = S} plain padding i n
  unfolding card_padding_loop padding_loop
  padding_loop-card plain padding i zero = refl
  padding_loop-card {S} plain padding i (suc n) =
      ap
        (λ (rest : M S Bool). elim (get_elem? plain i) [
          | none ↦ (λ (s : S). Outcome.fault)
          | some b ↦ if b == padding then rest else pure false
        ])
        (padding_loop-card {S = S} plain padding (i + 1) n)

  strip_padding-card :
      {S : Type 0} (blocksz plainlen : ℕ) (plain : List ℕ) (s : S)
      → card_strip_padding blocksz plainlen plain s ≡ strip_padding blocksz plainlen plain s
  unfolding card_strip_padding strip_padding
  strip_padding-card {S} blocksz plainlen plain s =
      bind-ext
        (elim (get_elem? plain (sub_size plainlen 1)) [
          | none ↦ (λ (t : S). Outcome.fault)
          | some b ↦ pure b
        ])
        _ _ s
        (λ padding s1.
          bind-ext
            (fail_if (ltb padding 1 || ltb blocksz padding)
              (boxderrf (errf "PaddingError" no_error)))
            _ _ s1
            (λ u s2.
              let i = sub_size plainlen padding in
              bind-cong (card_padding_loop plain padding i (plainlen - i))
                (padding_loop plain padding i (plainlen - i))
                (λ good. fail_if (not good) (boxderrf (errf "PaddingError" no_error)) >> pure i) s2
                s2
                (ap (λ (loop : M S Bool). loop s2)
                  (padding_loop-card plain padding i (plainlen - i)))))

  open_with-card :
      (box s : Box crypto) (c : Cipher) (dgalg : ℕ) (sec : List ℕ)
      → card_open_with crypto box c dgalg sec s ≡ open_with crypto box c dgalg sec s
  unfolding card_open_with open_with nonce_bytes
  open_with-card box s c dgalg sec = bind-ext (nonce_bytes box.pdb_nonce) _ _ s (λ nonce s1.
      bind-ext (verifyb box.pdb_iv) _ _ s1 (λ u2 s2.
        bind-ext (fail_if (not (box.pdb_iv.b_len == c.cipher_ivlen)) _) _ _ s2 (λ u3 s3.
          bind-ext (buf_slice box.pdb_iv) _ _ s3 (λ iv s4.
            bind-ext (verifyb box.pdb_enc) _ _ s4 (λ u5 s5.
              bind-ext (fail_if (ltb box.pdb_enc.b_len (c.cipher_authlen + c.cipher_blocksize)) _) _
                _ s5
                (λ u6 s6. bind-ext (buf_slice box.pdb_enc) _ _ s6 (λ enc s7.
                  bind-ext (found (crypto.decrypt c _ iv enc) _) _ _ s7 (λ plain s8.
                    bind-cong
                      (card_strip_padding c.cipher_blocksize (box.pdb_enc.b_len - c.cipher_authlen)
                        plain)
                      (strip_padding c.cipher_blocksize (box.pdb_enc.b_len - c.cipher_authlen)
                        plain)
                      (λ reallen. put (record box {
                        pdb_plain = record {
                          b_data = some plain;
                          b_size = box.pdb_enc.b_len - c.cipher_authlen;
                          b_offset = 0;
                          b_len = reallen;
                        };
                      }))
                      s8 s8
                      (strip_padding-card c.cipher_blocksize (box.pdb_enc.b_len - c.cipher_authlen)
                        plain s8)))))))))

  algs_same : (box s s' : Box crypto) (a : Cipher × ℕ) → open_algs crypto box s ≡ ok a s' → s' ≡ s
  unfolding open_algs
  algs_same box s s' a h = ground arith

  found_same :
      {A : Type 0} (o : Option A) (e : pivy.Errf.Errf) (s s' : Box crypto) (a : A)
      → found o e s ≡ ok a s'
      → (o ≡ some a) × (s' ≡ s)
  found_same none e s s' a h = absurd (cc h)
  found_same (some x) e s s' a h = (cc h, cc h)

  ephem_same :
      (o : Option (SshKey EC)) (s s' : Box crypto) (k : SshKey EC)
      → non_null o s ≡ ok k s'
      → (o ≡ some k) × (s' ≡ s)
  unfolding non_null
  ephem_same none s s' k h = absurd (cc h)
  ephem_same (some x) s s' k h = (cc h, cc h)

  ec_same :
      (k : SshKey EC) (s s' : Box crypto) (point : EC)
      → ec_of k s ≡ ok point s'
      → (s' ≡ s) × (point ≡ k.ecdsa)
  unfolding ec_of
  ec_same k s s' point h = ground arith

  must-some : {S A : Type 0} (o : Option A) (a : A) (s : S) → o ≡ some a → must o s ≡ ok a s
  must-some o a s h = rw h refl

  from_card_ok :
      {C A : Type 0} (s : Piv C) (box : Box crypto) (a : A) (o : Outcome (Piv C) A)
      → o ≡ ok a s
      → from_card box o ≡ ok a (s, box)
  unfolding from_card
  from_card_ok s box a o h = rw h refl

  on_box_ok :
      {C A : Type 0} (s : Piv C) (box box' : Box crypto) (a : A) (o : Outcome (Box crypto) A)
      → o ≡ ok a box'
      → on_box s o ≡ ok a (s, box')
  unfolding on_box
  on_box_ok s box box' a o h = rw h refl

  -- When the card answers the ECDH with the ephemeral key of a box as the private key `privkey`
  -- would, and `piv_box_open_offline` with that key opens the box, then `piv_box_open` opens it to
  -- the same box, and leaves the card as the ECDH left it.
  pub box_open-offline :
      {C : Type 0} (scard_transmit : C → List ℕ → ℕ → Option (List ℕ) × C) (fuel : ℕ)
      (put_eckey : EC → Option (List ℕ)) (slot : PivSlot) (privkey : P) (s s' : Piv C)
      (box box' : Box crypto)
      → ((ephem : SshKey EC) (sec : List ℕ)
          → box.pdb_ephem_pub ≡ some ephem
          → crypto.ecdh_compute_key ephem.ecdsa privkey ≡ some sec
          → piv_ecdh scard_transmit fuel put_eckey slot ephem s ≡ ok sec s')
      → piv_box_open_offline crypto privkey box ≡ ok tt box'
      → piv_box_open scard_transmit fuel put_eckey crypto slot (s, box) ≡ ok tt (s', box')
  unfolding piv_box_open_offline piv_box_open
  box_open-offline {C} scard_transmit fuel put_eckey slot privkey s s' box box' answers h =
      let (a, b1, h1, g1) = bind_returns (open_algs crypto box) _ box tt box' h in
      let (ephem, b2, h2, g2) = bind_returns (non_null box.pdb_ephem_pub) _ b1 tt box' g1 in
      let (point, b2', h2', g2') = bind_returns (ec_of ephem) _ b2 tt box' g2 in
      let (e2', at) = ec_same ephem b2 b2' point h2' in
      let (sec, b3, h3, g3) =
        bind_returns
          (found (crypto.ecdh_compute_key point privkey) (boxderrf (errf "OpenSSLError" no_error)))
          _ b2' tt box' g2' in
      let e1 = algs_same box box b1 a h1 in
      let (has, e2) = ephem_same box.pdb_ephem_pub b1 b2 ephem h2 in
      let (shared, e3) = found_same _ _ b2' b3 sec h3 in
      let opens =
        subst (λ b. open_with crypto box a.0 a.1 sec b ≡ ok tt box') (e3 ∙ e2' ∙ e2 ∙ e1) g3 in
      bind-ok (λ (t : Piv C × PivBox (SshKey EC) P). on_box t.0 (card_algs crypto box t.1)) _
        (s, box) a (s, box)
        (on_box_ok s box box a (card_algs crypto box box) (algs-card box box ∙ h1 ∙ ap (ok a) e1))
      ∙ bind-ok (must box.pdb_ephem_pub) _ (s, box) ephem (s, box)
          (must-some box.pdb_ephem_pub ephem (s, box) has)
      ∙ bind-ok
          (λ (t : Piv C × PivBox (SshKey EC) P).
            from_card t.1 (piv_ecdh scard_transmit fuel put_eckey slot ephem t.0))
          _ (s, box) sec (s', box)
          (from_card_ok s' box sec (piv_ecdh scard_transmit fuel put_eckey slot ephem s)
            (answers ephem sec has (ap (λ k. crypto.ecdh_compute_key k privkey) (sym at) ∙ shared)))
      ∙ on_box_ok s' box box' tt (card_open_with crypto box a.0 a.1 sec box)
          (open_with-card box box a.0 a.1 sec ∙ opens)

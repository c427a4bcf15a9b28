-- ===== src/Box/Seal/Seals.antt =====
-- What `piv_box_seal_offline` seals, the private key opens.
use pivy.Prelude.{
  ℕ, ◌+◌, ◌-◌, ◌%◌, ◌≤◌, ◌<◌, ◌^◌, ◌≡◌, refl, sym, ap, ◌∙◌, subst, List, ◌++◌, true, false, not,
  Option, none, some, String, length, length-append, length-replicate, take, replicate, ltb, ◌==◌,
  arith,
}
use native.Mathlib.Nat.{mod-lt, mod-le, mod-eq_of_lt}
use pivy.Errf.{Errf}
use pivy.Outcome.{Outcome, M, ok, err, ◌>>=◌, ◌>>◌}
use pivy.Outcome.Ends.{Ends, Ends-bind, Ends-fail_if, Ends-verify}
use pivy.Apdu.{ApduBuf, slice, empty_buf}
use pivy.Box.{full_buf, buf_slice, or_default, default_cipher, default_kdf, piv_box_take_data}
use pivy.Box.Wire.{SshKey}
use pivy.Box.Seal.{
  Cipher, Crypto, Random, Box, found, must, nonce_bytes, open_algs, padded, ephemeral_key,
  seal_cipher, seal_digest, seal_nonce, seal_names, seal_with, piv_box_seal_offline,
  piv_box_open_offline,
}
use pivy.Box.Seal.Opens.{Locked, sized, sized-buf_slice, open-take}

-- What the code relies on of libssh and libcrypto: a ciphertext is decrypted to its plaintext and
-- is longer by the tag, blocks and tags are short, the two sides of an
-- ECDH agree, and the private keys are ECDSA keys.
pub record CryptoLaws {EC P : Type 0} (crypto : Crypto EC P) : Type 0 where
  pub decrypt_encrypt :
      (c : Cipher) (key iv plain enc : List ℕ)
      → crypto.encrypt c key iv plain ≡ some enc
      → crypto.decrypt c key iv enc ≡ some plain
  pub encrypt_length :
      (c : Cipher) (key iv plain enc : List ℕ)
      → crypto.encrypt c key iv plain ≡ some enc
      → length enc ≡ length plain + c.cipher_authlen
  pub block_size :
      (name : String) (c : Cipher)
      → crypto.cipher_by_name name ≡ some c
      → (0 < c.cipher_blocksize) × (c.cipher_blocksize < 256)
  pub tag_size :
      (name : String) (c : Cipher) → crypto.cipher_by_name name ≡ some c → c.cipher_authlen < 256
  pub agree :
      (a b : P) (pub_a pub_b : SshKey EC)
      → crypto.sshkey_demote a ≡ some pub_a
      → crypto.sshkey_demote b ≡ some pub_b
      → crypto.ecdh_compute_key pub_b.ecdsa a ≡ crypto.ecdh_compute_key pub_a.ecdsa b
  pub demoted_ecdsa :
      (a : P) (pub_a : SshKey EC) → crypto.sshkey_demote a ≡ some pub_a → pub_a.is_ecdsa ≡ true

abbrev pub AnyErr : {S : Type 0} → Errf → S → Type 0
AnyErr e s = Unit

-- A step that leaves the state as it is.
pub Ends-same :
    {S A B : Type 0} (T : A → Type 0) (Q : B → S → Type 0) (m : M S A) (f : A → M S B) (s : S)
    → Ends (λ a s'. T a × (s' ≡ s)) AnyErr (m s)
    → ((a : A) → T a → Ends Q AnyErr (f a s))
    → Ends Q AnyErr ((m >>= f) s)
Ends-same {S} {A} T Q m f s h k =
    Ends-bind (λ a s'. T a × (s' ≡ s)) Q AnyErr m f s h
      (λ a s' p. subst (λ t. Ends Q AnyErr (f a t)) (sym p.1) (k a p.0))

pub must-Ends :
    {S A : Type 0} (o : Option A) (s : S) → Ends (λ a s'. (o ≡ some a) × (s' ≡ s)) AnyErr (must o s)
must-Ends none s = tt
must-Ends (some a) s = (refl, refl)

pub found-Ends :
    {S A : Type 0} (o : Option A) (e : Errf) (s : S)
    → Ends (λ a s'. (o ≡ some a) × (s' ≡ s)) AnyErr (found o e s)
found-Ends none e s = tt
found-Ends (some a) e s = (refl, refl)

nonce_same :
    {S : Type 0} (r : ApduBuf) (s t s' : S) (v : List ℕ)
    → nonce_bytes r s ≡ ok v s'
    → (nonce_bytes r t ≡ ok v t) × (s' ≡ s)
unfolding nonce_bytes buf_slice slice
nonce_same r s t s' v h = ground arith

nonce-Ends :
    {S : Type 0} (r : ApduBuf) (s : S)
    → Ends (λ v s'. ((t : S) → nonce_bytes r t ≡ ok v t) × (s' ≡ s)) AnyErr (nonce_bytes r s)
nonce-Ends {S} r s = go (nonce_bytes r s) refl
  where
    go :
        (o : Outcome S (List ℕ))
        → nonce_bytes r s ≡ o
        → Ends (λ v s'. ((t : S) → nonce_bytes r t ≡ ok v t) × (s' ≡ s)) AnyErr o
    go (ok v s') h = ((λ t. (nonce_same r s t s' v h).0), (nonce_same r s s s' v h).1)
    go (err e s') h = tt
    go Outcome.abort h = tt
    go Outcome.fault h = tt
    go Outcome.stuck h = tt

whole-Ends :
    {S : Type 0} (d : List ℕ) (s : S)
    → Ends (λ v s'. (v ≡ d) × (s' ≡ s)) AnyErr (buf_slice (full_buf d) s)
whole-Ends {S} d s =
    subst (Ends (λ v s'. (v ≡ d) × (s' ≡ s)) AnyErr) (sym (sized-buf_slice d (length d) s refl))
      (refl, refl)

pub pad_facts :
    (bs n : ℕ)
    → 0 < bs
    → bs < 256
    → (0 < bs - n % bs)
      × (bs - n % bs ≤ bs)
      × (bs ≤ n + (bs - n % bs))
      × ((bs - n % bs) % 256 ≡ bs - n % bs)
pad_facts bs n low high =
    let below = mod-lt n low in
    let within = mod-le n bs in
    let small : bs - n % bs < 256 = omega arith in
    (omega arith, omega arith, omega arith, mod-eq_of_lt small)

module _ {EC P : Type 0} (crypto : Crypto EC P) (laws : CryptoLaws crypto) where
  abbrev pad_of : Cipher → List ℕ → ℕ
  pad_of c d = c.cipher_blocksize - length d % c.cipher_blocksize

  padded-Ends :
      (c : Cipher) (d : List ℕ) (s : Box crypto)
      → 0 < c.cipher_blocksize
      → c.cipher_blocksize < 256
      → Ends
          (λ plain s'. (plain ≡ d ++ replicate (pad_of c d) (pad_of c d)) × (s' ≡ s))
          AnyErr
          (padded crypto c (full_buf d) s)
  unfolding padded
  padded-Ends c d s low high =
      let (f1, f2, f3, f4) = pad_facts c.cipher_blocksize (length d) low high in
      let divides : (c.cipher_blocksize == 0) ≡ false = ground arith in
      rw divides (
        Ends-verify _ _ (ltb 0 (length d)) _ s (
          Ends-bind (λ v s'. (v ≡ d) × (s' ≡ s)) _ _ (buf_slice (full_buf d)) _ s (whole-Ends d s)
            (λ v s' same. (
              ap (λ t. t ++ replicate (pad_of c d) (pad_of c d % 256)) same.0
                  ∙ ap (λ k. d ++ replicate (pad_of c d) k) f4,
              same.1,
            ))))

  open_algs_lem :
      (box : Box crypto) (cname kname : String) (c : Cipher) (dgalg : ℕ)
      → box.pdb_cipher ≡ some cname
      → box.pdb_kdf ≡ some kname
      → crypto.cipher_by_name cname ≡ some c
      → ltb 0 c.cipher_authlen ≡ true
      → crypto.ssh_digest_alg_by_name kname ≡ some dgalg
      → ltb (crypto.ssh_digest_bytes dgalg) c.cipher_keylen ≡ false
      → open_algs crypto box box ≡ ok (c, dgalg) box
  unfolding open_algs
  open_algs_lem box cname kname c dgalg e1 e2 e3 e4 e5 e6 = rw (e1, e2, e3, e4, e5, e6) refl

  -- Where the shared secret has been made, for a box that holds `d`.
  seal_with-Locked :
      (privkey : P) (d iv sec : List ℕ) (pubk ephem : SshKey EC) (c : Cipher) (dgalg : ℕ)
      (cname kname : String) (s : Box crypto)
      → s.pdb_plain ≡ full_buf d
      → s.pdb_cipher ≡ some cname
      → s.pdb_kdf ≡ some kname
      → s.pdb_ephem_pub ≡ some ephem
      → ephem.is_ecdsa ≡ true
      → crypto.cipher_by_name cname ≡ some c
      → ltb 0 c.cipher_authlen ≡ true
      → crypto.ssh_digest_alg_by_name kname ≡ some dgalg
      → ltb (crypto.ssh_digest_bytes dgalg) c.cipher_keylen ≡ false
      → crypto.ecdh_compute_key ephem.ecdsa privkey ≡ some sec
      → length iv ≡ c.cipher_ivlen
      → length d < 2 ^ 63
      → Ends (λ u box. Locked crypto privkey d box) AnyErr (seal_with crypto pubk c dgalg sec iv s)
  unfolding seal_with
  seal_with-Locked privkey d iv sec pubk ephem c dgalg cname kname s holds e1 e2 e3 is_ec e4 e5 e6
        e7 shared ivs room =
      let (low, high) = laws.block_size cname c e4 in
      let tag = laws.tag_size cname c e4 in
      let (f1, f2, f3, f4) = pad_facts c.cipher_blocksize (length d) low high in
      let padded_d =
        subst
          (λ r.
            Ends (λ plain s'. (plain ≡ d ++ replicate (pad_of c d) (pad_of c d)) × (s' ≡ s)) AnyErr
              (padded crypto c r s))
          (sym holds) (padded-Ends c d s low high) in
      Ends-same _ _ (nonce_bytes s.pdb_nonce) _ s (nonce-Ends s.pdb_nonce s) (λ nonce h1.
        Ends-same (λ plain. plain ≡ d ++ replicate (pad_of c d) (pad_of c d)) _
          (padded crypto c s.pdb_plain) _ s padded_d
          (λ plain h2.
            Ends-same _ _
              (must (
                crypto.encrypt c (take c.cipher_keylen (crypto.ssh_digest dgalg (sec ++ nonce))) iv
                  plain))
              _ s (must-Ends _ s)
              (λ enc h3.
                Ends-same _ _ (must (crypto.demote_public pubk)) _ s (must-Ends _ s) (λ to h4.
                  let plain_length : length plain ≡ length d + pad_of c d =
                    ap length h2
                    ∙ length-append d (replicate (pad_of c d) (pad_of c d))
                    ∙ ap (λ k. length d + k) (length-replicate (pad_of c d) (pad_of c d)) in
                  let enc_size = laws.encrypt_length c _ iv plain enc h3 in
                  record {
                    cipher = c;
                    dgalg = dgalg;
                    ephem = ephem;
                    sec = sec;
                    nonce = nonce;
                    iv = iv;
                    enc = enc;
                    pad = pad_of c d;
                    algs = open_algs_lem _ cname kname c dgalg e1 e2 e4 e5 e6 e7;
                    has_ephem = e3;
                    ephem_ecdsa = is_ec;
                    shared = shared;
                    has_nonce = h1;
                    has_iv = refl;
                    iv_length = ivs;
                    has_enc = ap (λ k. sized enc (k + c.cipher_authlen)) plain_length;
                    enc_length = enc_size ∙ ap (λ k. k + c.cipher_authlen) plain_length;
                    decrypts = laws.decrypt_encrypt c _ iv plain enc h3 ∙ ap some h2;
                    some_pad = f1;
                    pad_fits = f2;
                    block_fits = f3;
                    small = omega arith;
                  }))))

  key-Ends :
      (random : Random P) (box : Box crypto)
      → Ends (λ p s'. Unit {0} × (s' ≡ box)) AnyErr (ephemeral_key crypto random box box)
  unfolding ephemeral_key
  key-Ends random box = ground arith

  cipher-Ends :
      (box s : Box crypto)
      → Ends
          (λ c s'.
            ((crypto.cipher_by_name (or_default box.pdb_cipher default_cipher) ≡ some c)
              × (ltb 0 c.cipher_authlen ≡ true))
            × (s' ≡ s))
          AnyErr
          (seal_cipher crypto box s)
  unfolding seal_cipher
  cipher-Ends box s = ground arith

  digest-Ends :
      (c : Cipher) (box s : Box crypto)
      → Ends
          (λ dgalg s'.
            ((crypto.ssh_digest_alg_by_name (or_default box.pdb_kdf default_kdf) ≡ some dgalg)
              × (ltb (crypto.ssh_digest_bytes dgalg) c.cipher_keylen ≡ false))
            × (s' ≡ s))
          AnyErr
          (seal_digest crypto c box s)
  unfolding seal_digest
  digest-Ends c box s = ground arith

  -- The nonce alone has changed, of what sealing uses.
  abbrev SameBut : Box crypto → Unit {0} → Box crypto → Type 0
  SameBut s u s' =
      (s'.pdb_plain ≡ s.pdb_plain)
      × (s'.pdb_cipher ≡ s.pdb_cipher)
      × (s'.pdb_kdf ≡ s.pdb_kdf)
      × (s'.pdb_ephem_pub ≡ s.pdb_ephem_pub)

  seal_nonce-Ends :
      (random : Random P) (s : Box crypto) → Ends (SameBut s) AnyErr (seal_nonce crypto random s)
  unfolding seal_nonce
  seal_nonce-Ends random s = ground arith

  abbrev named : SshKey EC → Box crypto → Box crypto
  named ephem box = record box {
    pdb_ephem_pub = some ephem;
    pdb_cipher = some (or_default box.pdb_cipher default_cipher);
    pdb_kdf = some (or_default box.pdb_kdf default_kdf);
  }

  -- When a box holds `d`, and the IV that is drawn is one for the cipher, a box that
  -- `piv_box_seal_offline` returns holds what opening it with the private key needs to give `d`.
  pub seal-Locked :
      (random : Random P) (privkey : P) (pubk : SshKey EC) (d : List ℕ) (box : Box crypto)
      → box.pdb_plain ≡ full_buf d
      → length d < 2 ^ 63
      → crypto.sshkey_demote privkey ≡ some pubk
      → ((c : Cipher)
          → crypto.cipher_by_name (or_default box.pdb_cipher default_cipher) ≡ some c
          → length random.new_iv ≡ c.cipher_ivlen)
      → Ends
          (λ u box'. Locked crypto privkey d box')
          (λ e box'. Unit)
          (piv_box_seal_offline crypto random pubk box)
  unfolding piv_box_seal_offline seal_names
  seal-Locked random privkey pubk d box holds room key ivs =
      let cname = or_default box.pdb_cipher default_cipher in
      let kname = or_default box.pdb_kdf default_kdf in
      Ends-fail_if _ _ (not pubk.is_ecdsa) _ _ box tt (
        Ends-same _ _ (ephemeral_key crypto random box) _ box (key-Ends random box) (λ pkey h1.
          Ends-same _ _ (must (crypto.sshkey_demote pkey)) _ box (must-Ends _ box) (λ ephem h2.
            Ends-same _ _ (seal_cipher crypto box) _ (named ephem box)
              (cipher-Ends box (named ephem box))
              (λ c h3.
                Ends-bind (SameBut (named ephem box)) _ _ (seal_nonce crypto random) _
                  (named ephem box) (seal_nonce-Ends random (named ephem box))
                  (λ u s h4.
                    Ends-same _ _ (seal_digest crypto c box) _ s (digest-Ends c box s) (λ dgalg h5.
                      Ends-same _ _ (found (crypto.ecdh_compute_key pubk.ecdsa pkey) _) _ s
                        (found-Ends _ _ s)
                        (λ sec h6.
                          seal_with-Locked privkey d random.new_iv sec pubk ephem c dgalg cname
                            kname s (h4.0 ∙ holds) h4.1 h4.2 h4.3 (laws.demoted_ecdsa pkey ephem h2)
                            h3.0 h3.1 h5.0 h5.1
                            (sym (laws.agree pkey privkey ephem pubk h2 key) ∙ h6) (ivs c h3.0)
                            room)))))))

  -- A private key opens what is sealed to its public key: when a box holds `d`, and the IV that is
  -- drawn is one for the cipher, and `piv_box_seal_offline` returns, then `piv_box_open_offline` with
  -- the private key returns too, and `piv_box_take_data` gives `d`.
  pub seal-open :
      (random : Random P) (privkey : P) (pubk : SshKey EC) (d : List ℕ) (box box' : Box crypto)
      → box.pdb_plain ≡ full_buf d
      → length d < 2 ^ 63
      → crypto.sshkey_demote privkey ≡ some pubk
      → ((c : Cipher)
          → crypto.cipher_by_name (or_default box.pdb_cipher default_cipher) ≡ some c
          → length random.new_iv ≡ c.cipher_ivlen)
      → piv_box_seal_offline crypto random pubk box ≡ ok tt box'
      → (piv_box_open_offline crypto privkey >> piv_box_take_data) box'
        ≡ ok d (record box' { pdb_plain = empty_buf })
  seal-open random privkey pubk d box box' holds room key ivs sealed =
      open-take crypto privkey d box' (
        subst (Ends (λ u b. Locked crypto privkey d b) (λ e b. Unit)) sealed
          (seal-Locked random privkey pubk d box holds room key ivs))

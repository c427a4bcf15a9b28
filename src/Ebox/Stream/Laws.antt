-- ===== src/Ebox/Stream/Laws.antt =====
-- What the code of streams relies on of libssh, and the steps in front of a cipher.
use pivy.Prelude.{
  ℕ, ◌+◌, ◌<◌, ◌^◌, ◌≡◌, refl, List, Bool, true, false, not, Bool-cases, inl, inr, Option, none,
  some, String, length, take, ltb, ◌==◌, if◌then◌else◌,
}
use pivy.Outcome.{M, ok, ◌>>=◌, ◌>>◌, pure, verify}
use pivy.Outcome.Ends.{Ends}
use pivy.Box.Seal.{Cipher, must}
use pivy.Box.Seal.Seals.{AnyErr}
use pivy.Box.Wire.Carries.{Appends}
use pivy.Ebox.State.{Ebox}
use pivy.Ebox.Stream.{StreamLib, chunk_iv, mac_alg, chunk_key}

-- What the code relies on of libssh: a ciphertext is decrypted to its plaintext and is longer by
-- the tag, blocks, tags and digests are short, an HMAC has the length of its digest,
-- and a number of 32 bits is read back.
pub record StreamLaws {EC P : Type 0} (lib : StreamLib EC P) : Type 0 where
  pub decrypt_encrypt :
      (c : Cipher) (nr : ℕ) (key iv plain enc : List ℕ)
      → lib.encrypt_nr c nr key iv plain ≡ some enc
      → lib.decrypt_nr c nr key iv enc ≡ some plain
  pub encrypt_length :
      (c : Cipher) (nr : ℕ) (key iv plain enc : List ℕ)
      → lib.encrypt_nr c nr key iv plain ≡ some enc
      → length enc ≡ length plain + c.cipher_authlen
  pub block_size :
      (name : String) (c : Cipher)
      → lib.crypto.cipher_by_name name ≡ some c
      → (0 < c.cipher_blocksize) × (c.cipher_blocksize < 256)
  pub tag_size :
      (name : String) (c : Cipher)
      → lib.crypto.cipher_by_name name ≡ some c
      → c.cipher_authlen < 256
  pub digest_size : (dgalg : ℕ) → lib.crypto.ssh_digest_bytes dgalg < 256
  pub u32 : (v : ℕ) → v < 2 ^ 32 → Appends (lib.put_u32 v) lib.get_u32 v
  pub hmac_length :
      (dgalg : ℕ) (key bytes : List ℕ)
      → length (lib.ssh_hmac dgalg key bytes) ≡ lib.crypto.ssh_digest_bytes dgalg

-- A step that gives a value in any state.
abbrev pub Gives : {S A : Type 0} → M S A → A → S → Type 0
Gives {S} m a s = (t : S) → m t ≡ ok a t

verified :
    {S A : Type 0} (b : Bool) (x : A) (s : S)
    → Ends (λ v s'. Gives (verify b >> pure x) v s × (s' ≡ s)) AnyErr ((verify b >> pure x) s)
verified true x s = ((λ t. refl), refl)
verified false x s = tt

pub iv-Ends :
    {S : Type 0} (c : Cipher) (nr : ℕ) (s : S)
    → Ends (λ v s'. Gives (chunk_iv c nr) v s × (s' ≡ s)) AnyErr (chunk_iv c nr s)
unfolding chunk_iv
iv-Ends c nr s = elim (Bool-cases (ltb 0 c.cipher_ivlen)) [
  | inl some_iv ↦ rw some_iv (verified (not (ltb c.cipher_ivlen 4)) _ s)
  | inr no_iv ↦ rw no_iv ((λ t. refl), refl)
]

module _ {EC P : Type 0} (lib : StreamLib EC P) where
  pub mac-Ends :
      {S : Type 0} (c : Cipher) (name : String) (s : S)
      → Ends (λ v s'. Gives (mac_alg lib c name) v s × (s' ≡ s)) AnyErr (mac_alg lib c name s)
  unfolding mac_alg
  mac-Ends {S} c name s = go (c.cipher_authlen == 0) (lib.crypto.ssh_digest_alg_by_name name)
    where
      go :
          (b : Bool) (o : Option ℕ)
          → Ends
              (λ v s'.
                Gives (if b then (do dgalg ← must o; pure (some dgalg)) else pure none) v s
                × (s' ≡ s))
              AnyErr
              ((if b then (do dgalg ← must {S = S} o; pure (some dgalg)) else pure none) s)
      go true none = tt
      go true (some dgalg) = ((λ t. refl), refl)
      go false o = ((λ t. refl), refl)

  pub key-Ends :
      {S : Type 0} (c : Cipher) (box : Ebox EC P) (s : S)
      → Ends (λ v s'. Gives (chunk_key lib c box) v s × (s' ≡ s)) AnyErr (chunk_key lib c box s)
  unfolding chunk_key
  key-Ends {S} c box s = go box.e_key
    where
      go :
          (o : Option (List ℕ))
          → Ends
              (λ v s'.
                Gives
                  (do
                    key ← must o
                    verify (not (ltb (length key) c.cipher_keylen))
                    pure (take c.cipher_keylen key))
                  v
                  s
                × (s' ≡ s))
              AnyErr
              ((do
                key ← must {S = S} o
                verify (not (ltb (length key) c.cipher_keylen))
                pure (take c.cipher_keylen key))
                s)
      go none = tt
      go (some key) = verified (not (ltb (length key) c.cipher_keylen)) (take c.cipher_keylen key) s

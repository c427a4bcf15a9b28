-- ===== src/Ebox/Create/Steps.antt =====
-- Steps of `ebox_create`, and that a box which was sealed is shut.
use pivy.Prelude.{◌≡◌, refl, ◌++◌, true, not, take}
use pivy.Outcome.{Outcome, M, ok, err, abort, fault, stuck, ◌>>=◌}
use pivy.Outcome.Ends.{Ends, Ends-bind, Ends-fail_if}
use pivy.Box.{piv_box_sealed}
use pivy.Box.Wire.{SshKey}
use pivy.Box.Seal.{
  Crypto, Random, Box, found, must, ephemeral_key, seal_names, seal_cipher, seal_nonce, seal_digest,
  seal_with, nonce_bytes, padded, piv_box_seal_offline,
}
use pivy.Box.Seal.Seals.{AnyErr}
use pivy.Ebox.Create.{must_box}

pub any-Ends : {S A : Type 0} (o : Outcome S A) → Ends (λ a s'. Unit {0}) AnyErr o
any-Ends (ok a s') = tt
any-Ends (err e s') = tt
any-Ends abort = tt
any-Ends fault = tt
any-Ends stuck = tt

-- A step of which the end alone matters.
pub Ends-last :
    {S A B : Type 0} (Q : B → S → Type 0) (m : M S A) (f : A → M S B) (s : S)
    → ((a : A) (s' : S) → Ends Q AnyErr (f a s'))
    → Ends Q AnyErr ((m >>= f) s)
Ends-last Q m f s k =
    Ends-bind (λ a s'. Unit {0}) Q AnyErr m f s (any-Ends (m s)) (λ a s' u. k a s')

pub both-Ends :
    {S A : Type 0} (P Q : A → S → Type 0) (o : Outcome S A)
    → Ends P AnyErr o
    → Ends Q AnyErr o
    → Ends (λ a s. P a s × Q a s) AnyErr o
both-Ends P Q (ok a s) h k = (h, k)
both-Ends P Q (err e s) h k = tt
both-Ends P Q abort h k = tt
both-Ends P Q fault h k = tt
both-Ends P Q stuck h k = tt

pub all-Ends :
    {S A X : Type 0} (P : X → A → S → Type 0) (o : Outcome S A)
    → ((x : X) → Ends (P x) AnyErr o)
    → Ends (λ a s. (x : X) → P x a s) AnyErr o
all-Ends P (ok a s) h = h
all-Ends P (err e s) h = tt
all-Ends P abort h = tt
all-Ends P fault h = tt
all-Ends P stuck h = tt

pub must_box-Ends :
    {S B : Type 0} (Q : B → Type 0) (m : M B (Unit {0})) (box : B) (s : S)
    → Ends (λ u b. Q b) AnyErr (m box)
    → Ends (λ b s'. Q b × (s' ≡ s)) AnyErr (must_box m box s)
unfolding must_box
must_box-Ends {S} {B} Q m box s h = go (m box) h
  where
    go :
        (o : Outcome B (Unit {0}))
        → Ends (λ u b. Q b) AnyErr o
        → Ends (λ b s'. Q b × (s' ≡ s)) AnyErr (must_box (λ _. o) box s)
    go (ok u b) h = (h, refl)
    go (err e b) h = tt
    go Outcome.abort h = tt
    go Outcome.fault h = tt
    go Outcome.stuck h = tt

module _ {EC P : Type 0} (crypto : Crypto EC P) where
  -- Sealing takes the plaintext away.
  pub seal-sealed :
      (random : Random P) (pubk : SshKey EC) (box : Box crypto)
      → Ends
          (λ u box'. piv_box_sealed box' ≡ true)
          AnyErr
          (piv_box_seal_offline crypto random pubk box)
  unfolding piv_box_seal_offline seal_with piv_box_sealed
  seal-sealed random pubk box = Ends-fail_if _ _ (not pubk.is_ecdsa) _ _ box tt (
      Ends-last _ (ephemeral_key crypto random box) _ box (λ pkey s1.
        Ends-last _ (must (crypto.sshkey_demote pkey)) _ s1 (λ ephem s2.
          Ends-last _ (seal_names crypto ephem) _ s2 (λ u s3.
            Ends-last _ (seal_cipher crypto box) _ s3 (λ cipher s4.
              Ends-last _ (seal_nonce crypto random) _ s4 (λ u s5.
                Ends-last _ (seal_digest crypto cipher box) _ s5 (λ dgalg s6.
                  Ends-last _ (found (crypto.ecdh_compute_key pubk.ecdsa pkey) _) _ s6 (λ sec s7.
                    Ends-last _ (nonce_bytes s7.pdb_nonce) _ s7 (λ nonce s8.
                      Ends-last _ (padded crypto cipher s7.pdb_plain) _ s8 (λ plain s9.
                        Ends-last _
                          (must (
                            crypto.encrypt cipher
                              (take cipher.cipher_keylen (crypto.ssh_digest dgalg (sec ++ nonce)))
                              random.new_iv plain))
                          _ s9
                          (λ enc s10.
                            Ends-last _ (must (crypto.demote_public pubk)) _ s10
                              (λ to s11. refl))))))))))))

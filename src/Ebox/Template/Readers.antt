-- ===== src/Ebox/Template/Readers.antt =====
-- Writers and readers of ebox templates that fit together, and what is relied on of libssh.
use pivy.Prelude.{ℕ, ◌≡◌, refl, sym, ◌∙◌, List, [], ◌∷◌, ◌++◌, append-nil, Option, some}
use pivy.Errf.{Errf}
use pivy.Outcome.{Outcome, M, ok, err, abort, fault, stuck, ◌>>◌, pure, on_error}
use pivy.Box.Wire.{SshKey, Buf, append_to}
use pivy.Box.Wire.Carries.{Carries, Appends, append_to_returns}
use pivy.Box.Wire.Fields.{SshBufLaws}
use pivy.Ebox.Template.{EboxBuf, read}

-- What the code relies on of the further calls of libssh: a key that is written in a string is read
-- back from it.
pub record EboxBufLaws {EC : Type 0} (lib : EboxBuf EC) : Type 0 where
  pub ssh_laws : SshBufLaws lib.ssh
  pub stringb : (v : List ℕ) → Appends (lib.put_stringb v) lib.ssh.get_stringb v
  pub key :
      (k : SshKey EC) (kbuf : List ℕ)
      → lib.sshkey_putb k ≡ some kbuf
      → lib.ssh.sshkey_fromb kbuf ≡ some k

pub read-some :
    {A : Type 0} (g : Buf → Option (A × Buf)) (b : Buf) (a : A) (rest : Buf)
    → g b ≡ some (a, rest)
    → read g b ≡ ok a rest
unfolding read
read-some g b a rest h = rw (h, read) refl

-- From the law of a call to its reading here, by way of its reading in a box.
pub read-Carries :
    {A : Type 0} (f : Buf → Option Buf) (g : Buf → Option (A × Buf)) (a : A)
    → Appends f g a
    → Carries (append_to f) (read g) a
unfolding Carries
read-Carries f g a h b b' x =
    let (e, left, back) = h b b' (append_to_returns f b b' x) in
    (e, left, λ rest. read-some g (e ++ rest) a rest (back rest))

on_error_returns :
    {S A : Type 0} (w : Errf → Errf) (o : Outcome S A) (s : S) (a : A) (s' : S)
    → on_error w (λ _. o) s ≡ ok a s'
    → o ≡ ok a s'
on_error_returns w (ok a s1) s b s' h = h
on_error_returns w (err e s1) s b s' h = absurd (cc h)
on_error_returns w abort s b s' h = absurd (cc h)
on_error_returns w fault s b s' h = absurd (cc h)
on_error_returns w stuck s b s' h = absurd (cc h)

pub on_error-Carries :
    {A : Type 0} (w : Errf → Errf) (p : M Buf (Unit {0})) (g : M Buf A) (a : A)
    → Carries p g a
    → Carries p (on_error w g) a
unfolding Carries
on_error-Carries w p g a one b b' x =
    let (e, left, back) = one b b' x in (e, left, λ rest. rw (back rest, on_error) refl)

pub Carries-on_error :
    {A : Type 0} (w : Errf → Errf) (p : M Buf (Unit {0})) (g : M Buf A) (a : A)
    → Carries p g a
    → Carries (on_error w p) g a
unfolding Carries
Carries-on_error w p g a one b b' x = one b b' (on_error_returns w (p b) b tt b' x)

then_assoc :
    {S A : Type 0} (o : Outcome S (Unit {0})) (q : M S (Unit {0})) (r : M S A) (s : S)
    → (((λ (_ : S). o) >> q) >> r) s ≡ ((λ (_ : S). o) >> (q >> r)) s
then_assoc (ok a s1) q r s = refl
then_assoc (err e s1) q r s = refl
then_assoc abort q r s = refl
then_assoc fault q r s = refl
then_assoc stuck q r s = refl

pub Carries-assoc :
    {A : Type 0} (p q r : M Buf (Unit {0})) (g : M Buf A) (a : A)
    → Carries (p >> (q >> r)) g a
    → Carries ((p >> q) >> r) g a
unfolding Carries
Carries-assoc p q r g a one b b' x = one b b' (sym (then_assoc (p b) q r b) ∙ x)

pub pure-Carries : {A : Type 0} (a : A) → Carries (pure tt) (pure a) a
unfolding Carries
pure-Carries a b b' h = ([], sym (cc h) ∙ sym (append-nil b), λ rest. refl)

pub Carries-err : {A : Type 0} (e : Errf) (g : M Buf A) (a : A) → Carries (λ b. err e b) g a
unfolding Carries
Carries-err e g a b b' h = absurd (cc h)

module _ {EC : Type 0} (lib : EboxBuf EC) (laws : EboxBufLaws lib) where
  open lib use {ssh}
  open laws use {ssh_laws, stringb, key}

  pub octet-Carries : (v : ℕ) → Carries (append_to (ssh.put_u8 v)) (read ssh.get_u8) v
  octet-Carries v =
      read-Carries (ssh.put_u8 v) ssh.get_u8 v
        (λ b b' h. (v ∷ [], ssh_laws.u8 v b b' h, λ rest. ssh_laws.u8_back v rest))

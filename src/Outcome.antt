-- ===== src/Outcome.antt =====
-- What a C function does to a state `S`: it returns, returns an error, or stops the process.
pub mod Ends
use pivy.Prelude.{Bool, true, false, ◌≡◌, refl, arith}
use pivy.Errf.{Errf}

pub data Outcome (S A : Type 0) : Type 0 where
  -- It returns a value (and ERRF_OK), with the state that it leaves.
  ok : A → S → Outcome S A
  -- It returns an `errf_t`, with the state that it leaves.
  err : Errf → S → Outcome S A
  -- A VERIFY does not hold: the process is stopped.
  abort : Outcome S A
  -- An access outside a buffer.
  fault : Outcome S A
  -- No C value: the fuel of a loop ran out.
  stuck : Outcome S A

abbrev pub M : Type 0 → Type 0 → Type 0
M S A = S → Outcome S A

infixl 5 ◌>>=◌ ◌>>◌
abbrev pub ◌>>=◌ : {S A B : Type 0} → M S A → (A → M S B) → M S B
◌>>=◌ m f s = elim (m s) [
  | ok a s' ↦ f a s'
  | err e s' ↦ err e s'
  | abort ↦ abort
  | fault ↦ fault
  | stuck ↦ stuck
]

abbrev pub ◌>>◌ : {S A B : Type 0} → M S A → M S B → M S B
m >> k = m >>= λ _. k

abbrev pub pure : {S A : Type 0} → A → M S A
pure a s = ok a s

abbrev pub fail : {S A : Type 0} → Errf → M S A
fail e s = err e s

-- `VERIFY(b)`.
abbrev pub verify : {S : Type 0} → Bool → M S (Unit {0})
verify true s = ok tt s
verify false s = abort

abbrev pub get : {S : Type 0} → M S S
get s = ok s s

abbrev pub put : {S : Type 0} → S → M S (Unit {0})
put s' s = ok tt s'

-- `if (b) return (e);`.
abbrev pub fail_if : {S : Type 0} → Bool → Errf → M S (Unit {0})
fail_if true e s = err e s
fail_if false e s = ok tt s

-- A sequence, from what its first part does.
pub bind-ok :
    {S A B : Type 0} (m : M S A) (f : A → M S B) (s : S) (a : A) (s' : S)
    → m s ≡ ok a s'
    → (m >>= f) s ≡ f a s'
bind-ok m f s a s' e = rw (e, ◌>>=◌) refl

pub bind-err :
    {S A B : Type 0} (m : M S A) (f : A → M S B) (s : S) (e : Errf) (s' : S)
    → m s ≡ err e s'
    → (m >>= f) s ≡ err e s'
bind-err m f s e s' h = rw (h, ◌>>=◌) refl

pub verify-true : {S A : Type 0} (b : Bool) (m : M S A) (s : S) → b ≡ true → (verify b >> m) s ≡ m s
verify-true true m s e = refl
verify-true false m s e = absurd (ground arith)

pub bind-cong :
    {S A B : Type 0} (m n : M S A) (f : A → M S B) (s s' : S)
    → m s ≡ n s'
    → (m >>= f) s ≡ (n >>= f) s'
bind-cong m n f s s' h = rw (h, ◌>>=◌) refl

-- What the parts of a sequence that returns have returned.
pub bind_returns :
    {S A B : Type 0} (m : M S A) (f : A → M S B) (s : S) (b : B) (s' : S)
    → (m >>= f) s ≡ ok b s'
    → (a : A) × (s1 : S) × (m s ≡ ok a s1) × (f a s1 ≡ ok b s')
bind_returns {S} {A} {B} m f s b s' = go (m s)
  where
    go :
        (o : Outcome S A)
        → ((λ (_ : S). o) >>= f) s ≡ ok b s'
        → (a : A) × (s1 : S) × (o ≡ ok a s1) × (f a s1 ≡ ok b s')
    go (ok a s1) h = (a, s1, refl, h)
    go (err e s1) h = absurd (cc h)
    go abort h = absurd (cc h)
    go fault h = absurd (cc h)
    go stuck h = absurd (cc h)

pub bind-abort :
    {S A B : Type 0} (m : M S A) (f : A → M S B) (s : S) → m s ≡ abort → (m >>= f) s ≡ abort
bind-abort m f s h = rw (h, ◌>>=◌) refl

pub bind-fault :
    {S A B : Type 0} (m : M S A) (f : A → M S B) (s : S) → m s ≡ fault → (m >>= f) s ≡ fault
bind-fault m f s h = rw (h, ◌>>=◌) refl

-- An error that is wrapped into another.
abbrev pub on_error : {S A : Type 0} → (Errf → Errf) → M S A → M S A
on_error wrap m s = elim (m s) [
  | ok a s' ↦ ok a s'
  | err e s' ↦ err (wrap e) s'
  | abort ↦ abort
  | fault ↦ fault
  | stuck ↦ stuck
]

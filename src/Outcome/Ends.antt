-- ===== src/Outcome/Ends.antt =====
-- What holds of the value or the error that a function returns.
use pivy.Prelude.{Bool, true, false}
use pivy.Errf.{Errf}
use pivy.Outcome.{Outcome, ok, err, abort, fault, stuck, M, ◌>>=◌, ◌>>◌, fail_if, verify}

-- `Q` of the state that is returned, `R` of the error and the state that is left with it.
abbrev pub Ends : {S A : Type 0} → (A → S → Type 0) → (Errf → S → Type 0) → Outcome S A → Type 0
Ends Q R (ok a s) = Q a s
Ends Q R (err e s) = R e s
Ends Q R abort = Unit
Ends Q R fault = Unit
Ends Q R stuck = Unit

pub Ends-bind :
    {S A B : Type 0} (P : A → S → Type 0) (Q : B → S → Type 0) (R : Errf → S → Type 0) (m : M S A)
    (f : A → M S B) (s : S)
    → Ends P R (m s)
    → ((a : A) (s' : S) → P a s' → Ends Q R (f a s'))
    → Ends Q R ((m >>= f) s)
Ends-bind {S} {A} {B} P Q R m f s h k = go (m s) h
  where
    go : (r : Outcome S A) → Ends P R r → Ends Q R (((λ (_ : S). r) >>= f) s)
    go (ok a s') h = k a s' h
    go (err e s') h = h
    go abort h = tt
    go fault h = tt
    go stuck h = tt

pub Ends-fail_if :
    {S A : Type 0} (Q : A → S → Type 0) (R : Errf → S → Type 0) (b : Bool) (e : Errf) (m : M S A)
    (s : S)
    → R e s
    → Ends Q R (m s)
    → Ends Q R ((fail_if b e >> m) s)
Ends-fail_if Q R true e m s r h = r
Ends-fail_if Q R false e m s r h = h

pub Ends-verify :
    {S A : Type 0} (Q : A → S → Type 0) (R : Errf → S → Type 0) (b : Bool) (m : M S A) (s : S)
    → Ends Q R (m s)
    → Ends Q R ((verify b >> m) s)
Ends-verify Q R true m s h = h
Ends-verify Q R false m s h = tt

pub Ends-weaken :
    {S A : Type 0} (P Q : A → S → Type 0) (R : Errf → S → Type 0) (o : Outcome S A)
    → Ends P R o
    → ((a : A) (s : S) → P a s → Ends Q R (ok a s))
    → Ends Q R o
Ends-weaken P Q R (ok a s) h k = k a s h
Ends-weaken P Q R (err e s) h k = h
Ends-weaken P Q R abort h k = tt
Ends-weaken P Q R fault h k = tt
Ends-weaken P Q R stuck h k = tt

-- ===== src/Box/Wire/Carries.antt =====
-- A writer and a reader of which the reader takes back what the writer appends.
use pivy.Prelude.{
  ◌≡◌, refl, sym, ap, ◌∙◌, [], ◌++◌, append_assoc, append-nil, Option, none, some, Bool, true,
  false,
}
use pivy.Errf.{Errf}
use pivy.Outcome.{fail_if, M, ok, abort, ◌>>=◌, ◌>>◌, bind-ok, bind_returns}
use pivy.Box.Wire.{Buf, append_to, take_from}

-- When `p` returns, it has appended bytes, and `g` takes them off the front of any buffer and
-- returns `a`.
unfoldable pub Carries : {A : Type 0} → M Buf (Unit {0}) → M Buf A → A → Type 0
Carries p g a =
    (b b' : Buf)
    → p b ≡ ok tt b'
    → (e : Buf) × (b' ≡ b ++ e) × ((rest : Buf) → g (e ++ rest) ≡ ok a rest)

-- The same of the calls of libssh.
abbrev pub Appends : {A : Type 0} → (Buf → Option Buf) → (Buf → Option (A × Buf)) → A → Type 0
Appends f g a =
    (b b' : Buf)
    → f b ≡ some b'
    → (e : Buf) × (b' ≡ b ++ e) × ((rest : Buf) → g (e ++ rest) ≡ some (a, rest))

pub append_to_returns :
    (f : Buf → Option Buf) (b b' : Buf) → append_to f b ≡ ok tt b' → f b ≡ some b'
unfolding append_to
append_to_returns f b b' = go (f b)
  where
    go : (o : Option Buf) → append_to (λ b. o) b ≡ ok tt b' → o ≡ some b'
    go none x = absurd (unfold append_to in cc x)
    go (some c) x = unfold append_to in cc x

pub take_from-some :
    {A : Type 0} (g : Buf → Option (A × Buf)) (b : Buf) (a : A) (rest : Buf)
    → g b ≡ some (a, rest)
    → take_from g b ≡ ok a rest
unfolding take_from
take_from-some g b a rest h = rw (h, take_from) refl

pub append_to-Carries :
    {A : Type 0} (f : Buf → Option Buf) (g : Buf → Option (A × Buf)) (a : A)
    → Appends f g a
    → Carries (append_to f) (take_from g) a
unfolding Carries
append_to-Carries f g a h b b' x =
    let (e, left, back) = h b b' (append_to_returns f b b' x) in
    (e, left, λ rest. take_from-some g (e ++ rest) a rest (back rest))

module _ {A B : Type 0} (p q : M Buf (Unit {0})) (g : M Buf A) (h : A → M Buf B) (a : A)
    (c : B) where
  pub Carries-bind : Carries p g a → Carries q (h a) c → Carries (p >> q) (g >>= h) c
  unfolding Carries
  Carries-bind one two b b' x =
      let (u, b1, first, second) = bind_returns p (λ _. q) b tt b' x in
      let (e1, left1, back1) = one b b1 first in
      let (e2, left2, back2) = two b1 b' second in
      (
        e1 ++ e2,
        left2 ∙ ap (λ l. l ++ e2) left1 ∙ append_assoc b e1 e2,
        λ rest.
            ap (g >>= h) (append_assoc e1 e2 rest)
            ∙ bind-ok g h (e1 ++ (e2 ++ rest)) a (e2 ++ rest) (back1 (e2 ++ rest))
            ∙ back2 rest,
      )

-- A reader that goes on without reading.
pub Carries-then :
    {A B : Type 0} (p : M Buf (Unit {0})) (g : M Buf A) (h : A → M Buf B) (a : A) (c : B)
    → Carries p g a
    → ((b : Buf) → h a b ≡ ok c b)
    → Carries p (g >>= h) c
unfolding Carries
Carries-then p g h a c one silent b b' x =
    let (e, left, back) = one b b' x in
    (e, left, λ rest. bind-ok g h (e ++ rest) a rest (back rest) ∙ silent rest)

-- Neither writes nor reads.
pub Carries-silent :
    {A : Type 0} (p : M Buf (Unit {0})) (g : M Buf A) (a : A)
    → ((b b' : Buf) → p b ≡ ok tt b' → b' ≡ b)
    → ((b : Buf) → g b ≡ ok a b)
    → Carries p g a
unfolding Carries
Carries-silent p g a quiet back b b' x = ([], quiet b b' x ∙ sym (append-nil b), back)

-- A test that does not hold.
pub Carries-fail_if :
    {A : Type 0} (p : M Buf (Unit {0})) (c : Bool) (e : Errf) (g : M Buf A) (a : A)
    → c ≡ false
    → Carries p g a
    → Carries p (fail_if c e >> g) a
Carries-fail_if p true e g a h one = absurd (cc h)
Carries-fail_if p false e g a h one = one

-- A writer that stops the process.
pub Carries-abort : {A : Type 0} (g : M Buf A) (a : A) → Carries (λ b. abort) g a
unfolding Carries
Carries-abort g a b b' h = absurd (cc h)

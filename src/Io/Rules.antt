-- ===== src/Io/Rules.antt =====
-- What holds of a result: a condition for a return and one for a failure. A panic is excluded.
use garnd.Prelude.{ℕ, ◌≡◌, refl, ◌⊎◌, inl, inr}
use garnd.Io.Calls.{Log, Reply, done, failed}
use garnd.Io.Monad.{Io, Outcome, ok, err, panic, resume, recover}

abbrev pub Ensures :
    {S E A : Type 0}
    → (A → S → Log → Type 0)
    → (E → S → Log → Type 0)
    → Outcome E A × S × Log
    → Type 0
Ensures P Q (ok a, s, t) = P a s t
Ensures P Q (err e, s, t) = Q e s t
Ensures P Q (panic, s, t) = ⊥

-- The sequence of two steps.
pub resume-Ensures :
    {S E A B : Type 0} (P : A → S → Log → Type 0) (Q : E → S → Log → Type 0)
    (P' : B → S → Log → Type 0) (Q' : E → S → Log → Type 0) (x : Outcome E A × S × Log)
    (f : A → Io S E B)
    → Ensures P Q x
    → ((a : A) (s : S) (t : Log) → P a s t → Ensures P' Q' (f a s t))
    → ((e : E) (s : S) (t : Log) → Q e s t → Q' e s t)
    → Ensures P' Q' (resume x f)
resume-Ensures P Q P' Q' (ok a, s, t) f h next fails = next a s t h
resume-Ensures P Q P' Q' (err e, s, t) f h next fails = fails e s t h
resume-Ensures P Q P' Q' (panic, s, t) f h next fails = absurd h

-- A step and the handler of its error.
pub recover-Ensures :
    {S E F A : Type 0} (P : A → S → Log → Type 0) (Q : E → S → Log → Type 0)
    (P' : A → S → Log → Type 0) (Q' : F → S → Log → Type 0) (x : Outcome E A × S × Log)
    (f : E → Io S F A)
    → Ensures P Q x
    → ((a : A) (s : S) (t : Log) → P a s t → P' a s t)
    → ((e : E) (s : S) (t : Log) → Q e s t → Ensures P' Q' (f e s t))
    → Ensures P' Q' (recover x f)
recover-Ensures P Q P' Q' (ok a, s, t) f h returned handled = returned a s t h
recover-Ensures P Q P' Q' (err e, s, t) f h returned handled = handled e s t h
recover-Ensures P Q P' Q' (panic, s, t) f h returned handled = absurd h

-- Weaker conditions.
pub Ensures-mono :
    {S E A : Type 0} (P : A → S → Log → Type 0) (Q : E → S → Log → Type 0)
    (P' : A → S → Log → Type 0) (Q' : E → S → Log → Type 0) (x : Outcome E A × S × Log)
    → Ensures P Q x
    → ((a : A) (s : S) (t : Log) → P a s t → P' a s t)
    → ((e : E) (s : S) (t : Log) → Q e s t → Q' e s t)
    → Ensures P' Q' x
Ensures-mono P Q P' Q' (ok a, s, t) h returned fails = returned a s t h
Ensures-mono P Q P' Q' (err e, s, t) h returned fails = fails e s t h
Ensures-mono P Q P' Q' (panic, s, t) h returned fails = absurd h

pub Reply-cases : {A : Type 0} (r : Reply A) → ((a : A) × (r ≡ done a)) ⊎ ((n : ℕ) × (r ≡ failed n))
Reply-cases (done a) = inl (a, refl)
Reply-cases (failed n) = inr (n, refl)

-- A sequence that returned has returned at every step.
pub resume-ok :
    {S E A B : Type 0} (x : Outcome E A × S × Log) (f : A → Io S E B) {b : B}
    → (resume x f).0 ≡ ok b
    → (a : A) × (x.0 ≡ ok a) × ((f a x.1 x.2).0 ≡ ok b)
resume-ok (ok a, s, t) f h = (a, refl, h)
resume-ok (err e, s, t) f h = cc
resume-ok (panic, s, t) f h = cc

-- Two conditions at once.
pub Ensures-both :
    {S E A : Type 0} (P : A → S → Log → Type 0) (Q : E → S → Log → Type 0)
    (P' : A → S → Log → Type 0) (Q' : E → S → Log → Type 0) (x : Outcome E A × S × Log)
    → Ensures P Q x
    → Ensures P' Q' x
    → Ensures (λ a s t. P a s t × P' a s t) (λ e s t. Q e s t × Q' e s t) x
Ensures-both P Q P' Q' (ok a, s, t) h h' = (h, h')
Ensures-both P Q P' Q' (err e, s, t) h h' = (h, h')
Ensures-both P Q P' Q' (panic, s, t) h h' = absurd h

-- What follows a step that returns.
pub resume-returns :
    {S E A B : Type 0} (P : A → S → Log → Type 0) (C : Outcome E B × S × Log → Type 0)
    (x : Outcome E A × S × Log) (f : A → Io S E B)
    → Ensures P (λ _ _ _. ⊥) x
    → ((a : A) (s : S) (t : Log) → P a s t → C (f a s t))
    → C (resume x f)
resume-returns P C (ok a, s, t) f h next = next a s t h
resume-returns P C (err e, s, t) f h next = absurd h
resume-returns P C (panic, s, t) f h next = absurd h

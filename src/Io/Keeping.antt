-- ===== src/Io/Keeping.antt =====
-- Code that keeps a property of the state and the log, whether it returns or fails.
use garnd.Io.Calls.{Log}
use garnd.Io.Monad.{Io, Outcome, ok, err, panic, resume, recover, finally, after}
use garnd.Io.Rules.{Ensures, resume-Ensures, recover-Ensures}

abbrev pub Holds : {S E A : Type 0} → (S → Log → Type 0) → Outcome E A × S × Log → Type 0
Holds P x = Ensures (λ _ s t. P s t) (λ _ s t. P s t) x

module _ {S : Type 0} (P : S → Log → Type 0) where
  pub Holds-resume :
      {E A B : Type 0} (x : Outcome E A × S × Log) (f : A → Io S E B)
      → Holds P x
      → ((b : A) (s : S) (t : Log) → P s t → Holds P (f b s t))
      → Holds P (resume x f)
  Holds-resume x f h next =
      resume-Ensures (λ _ s t. P s t) (λ _ s t. P s t) _ _ x f h next (λ _ _ _ p. p)

  pub Holds-recover :
      {E F A : Type 0} (x : Outcome E A × S × Log) (f : E → Io S F A)
      → Holds P x
      → ((b : E) (s : S) (t : Log) → P s t → Holds P (f b s t))
      → Holds P (recover x f)
  Holds-recover x f h handled =
      recover-Ensures (λ _ s t. P s t) (λ _ s t. P s t) _ _ x f h (λ _ _ _ p. p) handled

-- Code with a state of its own has the log and the outcome of its body.
pub within-Ensures :
    {S R E A : Type 0} (P : A → Log → Type 0) (x : Outcome E A × S × Log) (r : R)
    → Ensures (λ a _ t. P a t) (λ _ _ _. ⊥) x
    → Ensures (λ a _ t. P a t) (λ _ _ _. ⊥) (x.0, r, x.2)
within-Ensures P (ok a, s, t) r h = h
within-Ensures P (err e, s, t) r h = h
within-Ensures P (panic, s, t) r h = h

-- Code that returns: neither an error nor a panic.
abbrev pub Returns : {S E A : Type 0} → Outcome E A × S × Log → Type 0
Returns x = Ensures (λ _ _ _. Unit {0}) (λ _ _ _. ⊥) x

pub rebuilt-Returns :
    {S R E A : Type 0} (x : Outcome E A × S × Log) (r : R)
    → Returns x
    → Returns {S = R} (x.0, r, x.2)
rebuilt-Returns (ok a, s, t) r h = h
rebuilt-Returns (err e, s, t) r h = h
rebuilt-Returns (panic, s, t) r h = h

after-Returns :
    {S E A : Type 0} (o : Outcome E A) (s : S) (t : Log) (x : Outcome E (Unit {0}) × S × Log)
    → Returns (o, s, t)
    → Returns x
    → Returns (after x.0 o, x.1, x.2)
after-Returns (ok a) s t (ok _, s', u) r r' = tt
after-Returns o s t (err e, s', u) r r' = absurd r'
after-Returns o s t (panic, s', u) r r' = absurd r'
after-Returns (err e) s t (ok _, s', u) r r' = absurd r
after-Returns panic s t (ok _, s', u) r r' = absurd r

-- A destructor that returns, after code that does.
pub finally-Returns :
    {S E A : Type 0} (m : Io S E A) (clean : Io S E (Unit {0})) (s : S) (t : Log)
    → Returns (m s t)
    → ((s : S) (t : Log) → Returns (clean s t))
    → Returns (finally m clean s t)
finally-Returns m clean s t h h' =
    after-Returns (m s t).0 (m s t).1 (m s t).2 (clean (m s t).1 (m s t).2) h
      (h' (m s t).1 (m s t).2)

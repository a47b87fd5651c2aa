-- ===== src/Io/Monad.antt =====
-- State, log, errors and panics. `?` is the bind of `do`.
use garnd.Prelude.{ℕ, Bool, true, false, Option, none, some, ◌∷◌}
use garnd.Errors.{DetailedError, system}
use garnd.Io.Calls.{Call, Reply, done, failed, Log, Kernel}

pub data Outcome (E A : Type 0) : Type 0 where
  ok : A → Outcome E A
  err : E → Outcome E A
  panic : Outcome E A

abbrev pub Io : Type 0 → Type 0 → Type 0 → Type 0
Io S E A = S → Log → Outcome E A × S × Log

module _ {S E : Type 0} where
  abbrev pub pure : {A : Type 0} → A → Io S E A
  pure a s t = (ok a, s, t)

  abbrev pub fail : {A : Type 0} → E → Io S E A
  fail e s t = (err e, s, t)

  -- A panic, such as that of `unwrap`.
  abbrev pub panics : {A : Type 0} → Io S E A
  panics s t = (panic, s, t)

  abbrev pub get : Io S E S
  get s t = (ok s, s, t)

  abbrev pub put : S → Io S E (Unit {0})
  put s _ t = (ok tt, s, t)

  abbrev pub modify : (S → S) → Io S E (Unit {0})
  modify f s t = (ok tt, f s, t)

  -- What follows a step: its result if it returned, nothing if it failed or panicked.
  abbrev pub resume :
      {A B : Type 0} → Outcome E A × S × Log → (A → Io S E B) → Outcome E B × S × Log
  resume (ok a, s, t) f = f a s t
  resume (err e, s, t) f = (err e, s, t)
  resume (panic, s, t) f = (panic, s, t)

  infixl 5 ◌>>=◌ ◌>>◌
  abbrev pub ◌>>=◌ : {A B : Type 0} → Io S E A → (A → Io S E B) → Io S E B
  ◌>>=◌ m f s t = resume (m s t) f

  abbrev pub ◌>>◌ : {A B : Type 0} → Io S E A → Io S E B → Io S E B
  m >> k = m >>= λ _. k

  -- `if test { return Err(e) }`
  abbrev pub fail_if : Bool → E → Io S E (Unit {0})
  fail_if true e = fail e
  fail_if false _ = pure tt

  -- `Option::unwrap`
  abbrev pub unwrap : {A : Type 0} → Option A → Io S E A
  unwrap none = panics
  unwrap (some a) = pure a

abbrev pub recover :
    {S E F A : Type 0} → Outcome E A × S × Log → (E → Io S F A) → Outcome F A × S × Log
recover (ok a, s, t) f = (ok a, s, t)
recover (err e, s, t) f = f e s t
recover (panic, s, t) f = (panic, s, t)

-- A `match` on a result whose error case goes on with a handler.
abbrev pub or_else : {S E F A : Type 0} → Io S E A → (E → Io S F A) → Io S F A
or_else m handler s t = recover (m s t) handler

-- A call whose error is dropped, as in `let _ = ...` and in a destructor.
abbrev pub ignore : ⦃k : Kernel⦄ {S E : Type 0} → Call → Io S E (Unit {0})
ignore ⦃k⦄ c s t = (ok tt, s, (c, k.answer t c) ∷ t)

-- Code that works on a part of the thread's state.
abbrev pub zoom : {S R E A : Type 0} → (S → R) → (S → R → S) → Io R E A → Io S E A
zoom part rebuild m s t = let (r, x, t') = m (part s) t in (r, rebuild s x, t')

abbrev pub outcome_of : {A : Type 0} → Reply A → Outcome DetailedError A
outcome_of (done a) = ok a
outcome_of (failed n) = err (system n)

-- A call, with `.add_metadata()` on its error.
abbrev pub call : ⦃k : Kernel⦄ {S : Type 0} → Call → Io S DetailedError ℕ
call ⦃k⦄ c s t = let r = k.answer t c in (outcome_of r, s, (c, r) ∷ t)

-- The answer of foreign code that neither reads nor changes the world.
abbrev pub convert : {S A : Type 0} → Reply A → Io S DetailedError A
convert r s t = (outcome_of r, s, t)

-- Code with a state of its own, which is gone at the end.
abbrev pub within : {S R E A : Type 0} → S → Io S E A → Io R E A
within s m r t = let (o, _, t') = m s t in (o, r, t')

-- The end of code whose destructors have run: a panic of theirs is one of the whole.
abbrev pub after : {E F A B : Type 0} → Outcome E A → Outcome F B → Outcome F B
after panic o = panic
after (ok _) o = o
after (err _) o = o

-- Code after which a destructor runs, however it ends.
abbrev pub finally : {S E A : Type 0} → Io S E A → Io S E (Unit {0}) → Io S E A
finally m clean s t =
    let (o, s', t') = m s t in let (c, s'', t'') = clean s' t' in (after c o, s'', t'')

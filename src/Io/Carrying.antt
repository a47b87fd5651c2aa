-- ===== src/Io/Carrying.antt =====
-- Code that carries a property of the state and the log along, however it ends, by a panic too.
use garnd.Prelude.{ℕ, Bool, true, false, if◌then◌else◌, List, [], ◌∷◌}
use garnd.Errors.{DetailedError}
use garnd.Io.Calls.{Call, Reply, Kernel, Log}
use garnd.Io.Monad.{
  Io, Outcome, ok, err, panic, resume, recover, call, convert, ignore, or_else, pure, fail, get,
  put, modify, ◌>>=◌, zoom, panics,
}
use garnd.Io.Reports.{send_error, send_all_errors}

pub record Carries {S E A : Type 0} (R : S → Log → Type 0) (m : Io S E A) : Type 0 where
  pub carries : (s : S) (t : Log) → R s t → R (m s t).1 (m s t).2

-- A call that the property survives, whatever the answer.
abbrev pub Allows : {S : Type 0} → (S → Log → Type 0) → Call → Type 0
Allows {S} R c = (r : Reply ℕ) (s : S) (t : Log) → R s t → R s ((c, r) ∷ t)

module _ {S : Type 0} (R : S → Log → Type 0) where
  pub Carries-resume :
      {E A B : Type 0} (m : Io S E A) (f : A → Io S E B)
      → Carries R m
      → ((a : A) → Carries R (f a))
      → Carries R (m >>= f)
  Carries-resume {E} {A} m f h next = record { carries = λ s t p. on (m s t) (h.carries s t p) }
    where
      on : (x : Outcome E A × S × Log) → R x.1 x.2 → R (resume x f).1 (resume x f).2
      on (ok a, s, t) p = (next a).carries s t p
      on (err e, s, t) p = p
      on (panic, s, t) p = p

  pub Carries-recover :
      {E F A : Type 0} (m : Io S E A) (f : E → Io S F A)
      → Carries R m
      → ((e : E) → Carries R (f e))
      → Carries R (or_else m f)
  Carries-recover {E} {F} {A} m f h handled = record {
    carries = λ s t p. on (m s t) (h.carries s t p);
  }
    where
      on : (x : Outcome E A × S × Log) → R x.1 x.2 → R (recover x f).1 (recover x f).2
      on (ok a, s, t) p = p
      on (err e, s, t) p = (handled e).carries s t p
      on (panic, s, t) p = p

  pub pure-Carries : {E A : Type 0} (a : A) → Carries {E = E} R (pure a)
  pure-Carries a = record { carries = λ s t p. p }

  pub fail-Carries : {E A : Type 0} (e : E) → Carries {A = A} R (fail e)
  fail-Carries e = record { carries = λ s t p. p }

  pub panics-Carries : {E A : Type 0} → Carries {E = E} {A = A} R panics
  panics-Carries = record { carries = λ s t p. p }

  pub get-Carries : {E : Type 0} → Carries {E = E} R get
  get-Carries = record { carries = λ s t p. p }

  pub put-Carries :
      {E : Type 0} (new : S) → ((s : S) (t : Log) → R s t → R new t) → Carries {E = E} R (put new)
  put-Carries new h = record { carries = h }

  pub modify-Carries :
      {E : Type 0} (f : S → S)
      → ((s : S) (t : Log) → R s t → R (f s) t)
      → Carries {E = E} R (modify f)
  modify-Carries f h = record { carries = h }

  pub Carries-if :
      {E A : Type 0} (b : Bool) (m n : Io S E A)
      → Carries R m
      → Carries R n
      → Carries R (if b then m else n)
  Carries-if true m n h h' = h
  Carries-if false m n h h' = h'

  pub convert-Carries : {A : Type 0} (r : Reply A) → Carries R (convert r)
  convert-Carries r = record { carries = λ s t p. p }

  module _ ⦃k : Kernel⦄ where
    pub call-Carries : (c : Call) → Allows R c → Carries R (call c)
    call-Carries c allows = record { carries = λ s t p. allows (k.answer t c) s t p }

    pub ignore-Carries : {E : Type 0} (c : Call) → Allows R c → Carries {E = E} R (ignore c)
    ignore-Carries c allows = record { carries = λ s t p. allows (k.answer t c) s t p }

    pub send_error-Carries :
        {E : Type 0} (e : DetailedError)
        → Allows R (Call.send_error e)
        → Carries {E = E} R (send_error e)
    unfolding send_error
    send_error-Carries e allows =
        Carries-recover _ _
          (Carries-resume _ _ (call-Carries (Call.send_error e) allows) (λ _. pure-Carries tt))
          (λ _. panics-Carries)

    pub send_all_errors-Carries :
        {E : Type 0} (es : List DetailedError)
        → ((e : DetailedError) → Allows R (Call.send_error e))
        → Carries {E = E} R (send_all_errors es)
    unfolding send_all_errors
    send_all_errors-Carries [] allows = pure-Carries tt
    send_all_errors-Carries (e ∷ es) allows =
        Carries-resume _ _ (send_error-Carries e (allows e))
          (λ _. send_all_errors-Carries es allows)

-- Code on a part of the state, with the rest held fixed.
pub Carries-zoom :
    {S P E A : Type 0} (R : S → Log → Type 0) (part : S → P) (rebuild : S → P → S) (m : Io P E A)
    → ((s : S) (t : Log) → R s t → R (rebuild s (part s)) t)
    → ((s : S) → Carries (λ p t. R (rebuild s p) t) m)
    → Carries R (zoom part rebuild m)
Carries-zoom R part rebuild m same h = record {
  carries = λ s t p. (h s).carries (part s) t (same s t p);
}

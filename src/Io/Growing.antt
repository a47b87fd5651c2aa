-- ===== src/Io/Growing.antt =====
-- Code whose log comes after the one that it started from, however it ends.
use garnd.Prelude.{List, [], ◌∷◌, refl}
use garnd.Errors.{DetailedError}
use garnd.Io.Calls.{Call, Reply, Kernel, Log}
use garnd.Io.Monad.{
  Io, Outcome, ok, err, panic, resume, recover, call, convert, ignore, or_else, pure, fail, get,
  modify, ◌>>=◌, zoom, finally, panics, put,
}
use garnd.Io.Reports.{send_error, send_all_errors}
use garnd.Io.History.{Since, Since-refl, Since-trans}

pub record Grows {S E A : Type 0} (m : Io S E A) : Type 0 where
  pub since : (s : S) (t : Log) → Since t (m s t).2

module _ {S E A : Type 0} where
  pub Grows-resume :
      {B : Type 0} (m : Io S E A) (f : A → Io S E B)
      → Grows m
      → ((a : A) → Grows (f a))
      → Grows (m >>= f)
  Grows-resume m f h next = record { since = λ s t. grown t (m s t) (h.since s t) }
    where
      grown : (t : Log) (x : Outcome E A × S × Log) → Since t x.2 → Since t (resume x f).2
      grown t (ok a, s', u) a₁ = Since-trans t u _ a₁ ((next a).since s' u)
      grown t (err e, s', u) a₁ = a₁
      grown t (panic, s', u) a₁ = a₁

  pub Grows-recover :
      {F : Type 0} (m : Io S E A) (f : E → Io S F A)
      → Grows m
      → ((e : E) → Grows (f e))
      → Grows (or_else m f)
  Grows-recover m f h handled = record { since = λ s t. grown t (m s t) (h.since s t) }
    where
      grown : (t : Log) (x : Outcome E A × S × Log) → Since t x.2 → Since t (recover x f).2
      grown t (ok a, s', u) a₁ = a₁
      grown t (err e, s', u) a₁ = Since-trans t u _ a₁ ((handled e).since s' u)
      grown t (panic, s', u) a₁ = a₁

module _ ⦃k : Kernel⦄ {S : Type 0} where
  pub call-Grows : (c : Call) → Grows {S = S} (call c)
  call-Grows c = record { since = λ s t. (_ ∷ [], refl) }

  pub convert-Grows : {A : Type 0} (r : Reply A) → Grows {S = S} (convert r)
  convert-Grows r = record { since = λ s t. Since-refl t }

  pub ignore-Grows : {E : Type 0} (c : Call) → Grows {S = S} {E = E} (ignore c)
  ignore-Grows c = record { since = λ s t. (_ ∷ [], refl) }

-- Code that calls nothing.
module _ {S E A : Type 0} where
  pub pure-Grows : (a : A) → Grows {S = S} {E = E} (pure a)
  pure-Grows a = record { since = λ s t. Since-refl t }

  pub fail-Grows : (e : E) → Grows {S = S} {A = A} (fail e)
  fail-Grows e = record { since = λ s t. Since-refl t }

pub get-Grows : {S E : Type 0} → Grows {S = S} {E = E} get
get-Grows = record { since = λ s t. Since-refl t }

pub modify-Grows : {S E : Type 0} (f : S → S) → Grows {E = E} (modify f)
modify-Grows f = record { since = λ s t. Since-refl t }

pub Grows-zoom :
    {S R E A : Type 0} (part : S → R) (rebuild : S → R → S) (m : Io R E A)
    → Grows m
    → Grows (zoom part rebuild m)
Grows-zoom part rebuild m h = record { since = λ s t. h.since (part s) t }

pub Grows-finally :
    {S E A : Type 0} (m : Io S E A) (clean : Io S E (Unit {0}))
    → Grows m
    → Grows clean
    → Grows (finally m clean)
Grows-finally m clean h h' = record {
  since = λ s t. Since-trans t _ _ (h.since s t) (h'.since (m s t).1 (m s t).2);
}

-- Reports of errors.
module _ ⦃k : Kernel⦄ {S E : Type 0} where
  pub panics-Grows : {A : Type 0} → Grows {S = S} {E = E} {A = A} panics
  panics-Grows = record { since = λ s t. Since-refl t }

  pub send_error-Grows : (e : DetailedError) → Grows {S = S} {E = E} (send_error e)
  unfolding send_error
  send_error-Grows e =
      Grows-recover _ _ (Grows-resume _ _ (call-Grows (Call.send_error e)) (λ _. pure-Grows tt))
        (λ _. panics-Grows)

  pub send_all_errors-Grows : (es : List DetailedError) → Grows {S = S} {E = E} (send_all_errors es)
  unfolding send_all_errors
  send_all_errors-Grows [] = pure-Grows tt
  send_all_errors-Grows (e ∷ es) =
      Grows-resume _ _ (send_error-Grows e) (λ _. send_all_errors-Grows es)

pub put-Grows : {S E : Type 0} (s : S) → Grows {E = E} (put s)
put-Grows s = record { since = λ _ t. Since-refl t }

-- ===== src/Io/Open.antt =====
-- The error channel while main holds its receiver.
use garnd.Prelude.{ℕ, ◌≡◌, refl, List, [], ◌∷◌}
use garnd.Errors.{DetailedError}
use garnd.Io.Calls.{Call, Log, Kernel, done}
use garnd.Io.Reports.{send_error, send_all_errors}
use garnd.Io.Rules.{Ensures}

abbrev pub ErrorsOpen : Kernel → Type 0
ErrorsOpen k = (t : Log) (e : DetailedError) → (n : ℕ) × (k.answer t (Call.send_error e) ≡ done n)

module _ ⦃k : Kernel⦄ (open_errors : ErrorsOpen k) {S : Type 0} (E : Type 0) where
  pub send_error-Open :
      (e : DetailedError) (s : S) (t : Log)
      → Ensures {E = E} (λ _ s' _. s' ≡ s) (λ _ _ _. ⊥) (send_error e s t)
  unfolding send_error
  send_error-Open e s t = rw (open_errors t e).1 refl

  pub send_all_errors-Open :
      (es : List DetailedError) (s : S) (t : Log)
      → Ensures {E = E} (λ _ s' _. s' ≡ s) (λ _ _ _. ⊥) (send_all_errors es s t)
  unfolding send_all_errors
  send_all_errors-Open [] s t = refl
  send_all_errors-Open (e ∷ es) s t = rw (open_errors t e).1 (send_all_errors-Open es s _)

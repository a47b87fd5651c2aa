-- ===== src/Main/Turn.antt =====
-- A turn of the outer loop of main.
pub mod Body
use garnd.Prelude.{◌≢◌, String, Option, ℕ, ◌≡◌, refl, ◌⊎◌, inl, inr, none, some, ◌∷◌, arith}
use garnd.Constants.{exit_code_failure, working_dir_env_option}
use garnd.EnvVars.{EnvVar, value, not_present, not_unicode, early_failure, get_optional_env_var}
use garnd.Errors.{DetailedError, system}
use garnd.Io.{
  Call, done, failed, Log, Kernel, Outcome, ok, err, panic, Ensures, Ensures-mono, ErrorsOpen,
  resume-Ensures, resume, recover, pure,
}
use garnd.Signals.{Statics}
use garnd.Signals.Descriptors.{Ledger}
use garnd.Runtime.{Runtime, Listening, notify_system_listening}
use garnd.Runtime.Notified.{Sent, Unsent, notify_listening_lem}
use garnd.Main.{
  Globals, Life, Next, exits, log, listened, announced, entered, start_up, with_working_dir, turn,
}
use garnd.Main.Signalled.{Serves, log_lem, first_signal, decide}
use garnd.Main.StartUp.{Begun, Ceased, start_up-Begun}
use garnd.Main.Finishing.{Finished, left}
use garnd.Main.Serving.{Concluded, served_lem, unannounced_lem}
use garnd.Main.Turn.Body.{Started, started_lem}

-- The working directory's variable cannot be read as text, which has been printed.
abbrev pub Early : Life → Globals → Log → Next → Globals → Log → Type 0
Early life g t next g' u =
    (life.working_dir_var ≡ not_unicode)
    × (next ≡ exits exit_code_failure)
    × (g' ≡ g)
    × (n : ℕ) × (u
        ≡ (
          Call.print_early
              "EARLY FAILURE! environment variable 'GARND_WORKING_DIR' is not a valid UTF8-string",
          done n,
        )
          ∷ t)

-- A turn.
abbrev pub Turned : ℕ → Life → Globals → Log → Next → Globals → Log → Type 0
Turned fd life g t next g' u =
    Early life g t next g' u
    ⊎ ((life.working_dir_var ≢ not_unicode) × Started fd life g t next g' u)

module _ ⦃k : Kernel⦄ (serves : Serves k) (fd : ℕ) where
  pub turn-Turned :
      (life : Life) (g : Globals) (t : Log)
      → ErrorsOpen k
      → Ensures
          (λ next g' u.
            Turned fd life g t next g' u × Ledger fd 0 (left next) g.events t g'.events u)
          (λ _ _ _. ⊥)
          (turn life g t)
  unfolding turn get_optional_env_var early_failure with_working_dir
  turn-Turned life g t open_errors = by_variable life.working_dir_var refl
    where
      started :
          (working_dir : Option String)
          → life.working_dir_var ≢ not_unicode
          → Ensures
              (λ next g' u.
                Turned fd life g t next g' u × Ledger fd 0 (left next) g.events t g'.events u)
              (λ _ _ _. ⊥)
              (with_working_dir life (inl working_dir) g t)
      started working_dir text =
          Ensures-mono
            (λ next g' u.
              Started fd life g t next g' u × Ledger fd 0 (left next) g.events t g'.events u)
            (λ _ _ _. ⊥) _ _ (with_working_dir life (inl working_dir) g t)
            (started_lem serves fd life working_dir g t open_errors)
            (λ next g' u (s, l). (inr (text, s), l)) (λ _ _ _ x. x)

      by_variable :
          (v : EnvVar)
          → life.working_dir_var ≡ v
          → Ensures
              (λ next g' u.
                Turned fd life g t next g' u × Ledger fd 0 (left next) g.events t g'.events u)
              (λ _ _ _. ⊥)
              (resume (get_optional_env_var working_dir_env_option v g t) (with_working_dir life))
      by_variable (value s) e = started (some s) (λ f. cc (e, f))
      by_variable not_present e = started none (λ f. cc (e, f))
      by_variable not_unicode e =
          rw
            (serves.early t
              "EARLY FAILURE! environment variable 'GARND_WORKING_DIR' is not a valid UTF8-string").1
            (
              inl (e, refl, refl, _, refl),
              record { descriptors = omega arith; threads = omega arith },
            )

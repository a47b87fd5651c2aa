-- ===== src/Main/Serving.antt =====
-- A turn that listens, and one that could not tell systemd so.
use garnd.Prelude.{ℕ, ◌≡◌, refl, ap, ◌∙◌, false, ◌∷◌, arith}
use garnd.Constants.{exit_code_failure}
use garnd.Errors.{system}
use garnd.Io.{
  Call, done, Log, Kernel, Ensures, Ensures-mono, Ensures-both, resume-Ensures, pure, ◌>>=◌,
}
use garnd.Signals.{Statics}
use garnd.Signals.Descriptors.{Ledger}
use garnd.Runtime.{Runtime, Listening, drop_runtime}
use garnd.Runtime.Notified.{drop_runtime_lem}
use garnd.Main.{Globals, Life, Received, Next, exits, log, receive, finish, with_runtime}
use garnd.Main.Signalled.{Serves, log_lem, first_signal, taken, decide, LoggedBy, receive-Decides}
use garnd.Main.Accounted.{receive-Kept}
use garnd.Main.Finishing.{Finished, left, finish_lem, with_runtime_lem}

module _ ⦃k : Kernel⦄ (serves : Serves k) where
  -- The loop and what follows it.
  abbrev pub Chosen : Life → Globals → Log → Received → Globals → Log → Type 0
  Chosen life g t got g' u =
      ((got, g') ≡ decide g life.clock (first_signal life.received))
      × LoggedBy got (taken life.received) t u

  abbrev pub Concluded :
      ℕ → Runtime Listening → Life → Globals → Log → Statics → Log → Next → Globals → Log → Type 0
  Concluded fd r life g t st t₀ next g' u =
      ((g' ≡ (decide g life.clock (first_signal life.received)).1)
        × Finished r.state_data.welcome_thread life
            (decide g life.clock (first_signal life.received)).0 next t u)
      × Ledger fd 0 (left next) st t₀ g'.events u

  received_lem :
      (fd : ℕ) (r : Runtime Listening) (life : Life) (st : Statics) (t₀ t : Log) (g : Globals)
      → Ledger fd 0 1 st t₀ g.events t
      → Ensures
          (λ got g' u. Chosen life g t got g' u × Ledger fd 0 1 st t₀ g'.events u)
          (λ _ _ _. ⊥)
          (receive r life.clock life.received g t)
  received_lem fd r life st t₀ t g a =
      Ensures-mono (λ got g' u. Chosen life g t got g' u × Ledger fd 0 1 st t₀ g'.events u)
        (λ _ g' u. ⊥ × Ledger fd 0 1 st t₀ g'.events u) _ _ (receive r life.clock life.received g t)
        (Ensures-both (Chosen life g t) (λ _ _ _. ⊥) (λ _ g' u. Ledger fd 0 1 st t₀ g'.events u)
          (λ _ g' u. Ledger fd 0 1 st t₀ g'.events u) (receive r life.clock life.received g t)
          (receive-Decides serves r life.clock life.received g t)
          (receive-Kept serves fd 0 1 st t₀ r life.clock life.received g t a))
        (λ _ _ _ x. x) (λ e _ _ _. absurd e)

  pub served_lem :
      (fd : ℕ) (r : Runtime Listening) (life : Life) (st : Statics) (t₀ t : Log) (g : Globals)
      → Ledger fd 0 1 st t₀ g.events t
      → Ensures
          (Concluded fd r life g t st t₀)
          (λ _ _ _. ⊥)
          (with_runtime r (receive r life.clock life.received) (finish r life.late) g t)
  served_lem fd r life st t₀ t g a =
      with_runtime_lem serves
        (λ got g' u. Chosen life g t got g' u × Ledger fd 0 1 st t₀ g'.events u)
        (Concluded fd r life g t st t₀) r (receive r life.clock life.received) (finish r life.late)
        g t (received_lem fd r life st t₀ t g a)
        (λ got g' u ((decided, logs), ledger).
          Ensures-mono
            (λ next g'' v.
              (g'' ≡ g')
              × Finished r.state_data.welcome_thread life got next t v
              × Ledger fd 0 (left next) st t₀ g''.events v)
            (λ _ _ _. ⊥) (Concluded fd r life g t st t₀) (λ _ _ _. ⊥) (finish r life.late got g' u)
            (finish_lem serves r life got st t₀ t g' u fd logs ledger)
            (λ next g'' v (same, fin, l).
              ((same ∙ ap (λ d. d.1) decided, rw (← ap (λ d. d.0) decided) fin), l))
            (λ _ _ _ x. x))

  -- The failed message is logged; the runtime's end waits for the thread.
  pub unannounced_lem :
      (fd : ℕ) (r : Runtime Listening) (code : ℕ) (st : Statics) (t₀ t : Log) (g : Globals)
      → Ledger fd 0 1 st t₀ g.events t
      → Ensures
          (λ next g' u.
            (((next ≡ exits exit_code_failure)
              × (g' ≡ g)
              × ((n m : ℕ) × (u
                    ≡ (Call.join_thread r.state_data.welcome_thread, done m)
                      ∷ (Call.log (system code), done n)
                      ∷ t))))
            × Ledger fd 0 (left next) st t₀ g'.events u)
          (λ _ _ _. ⊥)
          (with_runtime r
            (log (system code))
            (λ _. drop_runtime false r >>= λ _. pure (exits exit_code_failure))
            g
            t)
  unannounced_lem fd r code st t₀ t g a =
      with_runtime_lem serves
        (λ _ g' u. (g' ≡ g) × (n : ℕ) × (u ≡ (Call.log (system code), done n) ∷ t)) _ r
        (log (system code)) _ g t (log_lem serves (system code) g t)
        (λ _ g' u (same, n, f).
          rw (same, f)
            (resume-Ensures
              (λ _ g'' v.
                (g'' ≡ g)
                × (m : ℕ) × (v
                    ≡ (Call.join_thread r.state_data.welcome_thread, done m)
                      ∷ (Call.log (system code), done n)
                      ∷ t))
              (λ _ _ _. ⊥) _ _ _ _
              (drop_runtime_lem g _ ⊥ false _ r (serves.join _ r.state_data.welcome_thread).1)
              (λ _ g'' v (same', m, f').
                rw (same', f')
                  (
                    (refl, refl, (n, m, refl)),
                    record { descriptors = a.descriptors; threads = omega (arith, a.threads) },
                  ))
              (λ _ _ _ x. x)))

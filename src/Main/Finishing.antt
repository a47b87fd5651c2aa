-- ===== src/Main/Finishing.antt =====
-- What follows the inner loop of main: the welcome thread is joined, and late errors are logged.
use garnd.Prelude.{ℕ, ◌≡◌, refl, false, List, [], ◌∷◌, arith}
use garnd.Constants.{exit_code_success}
use garnd.Errors.{DetailedError}
use garnd.Io.{
  Call, done, Log, Kernel, Outcome, ok, err, panic, Ensures, Ensures-mono, Ensures-both,
  resume-Ensures, Since, Since-refl, Logs, pure, ◌>>=◌,
}
use garnd.Signals.{Statics}
use garnd.Signals.Descriptors.{Ledger}
use garnd.Runtime.{Runtime, Listening, drop_runtime}
use garnd.Runtime.Notified.{drop_runtime_lem}
use garnd.Main.{
  Globals, Life, Received, stopping, reloading, killed, waiting, Next, exits, restarts, log,
  log_all, finish, with_runtime, Main,
}
use garnd.Main.Signalled.{Serves, log_lem, taken, LoggedBy}
use garnd.Main.Accounted.{log_all-Kept}

-- The welcome thread was joined between the errors up to the signal and the late ones.
abbrev pub Joined : ℕ → Life → Log → Log → Type 0
Joined thread life t u =
    (v : Log) × (n : ℕ) × Logs (taken life.received) t v
    × Logs life.late ((Call.join_thread thread, done n) ∷ v) u

-- How a turn goes on from the end of its inner loop.
abbrev pub Finished : ℕ → Life → Received → Next → Log → Log → Type 0
Finished thread life stopping next t u = (next ≡ exits exit_code_success) × Joined thread life t u
Finished thread life reloading next t u = (next ≡ restarts) × Joined thread life t u
Finished thread life killed next t u = (next ≡ killed) × Since t u
Finished thread life waiting next t u = (next ≡ waiting) × Logs (taken life.received) t u

-- The threads that a turn leaves unjoined.
abbrev pub left : Next → ℕ
left (exits code) = 0
left restarts = 0
left killed = 1
left waiting = 1

module _ ⦃k : Kernel⦄ (serves : Serves k) where
  pub log_all_lem :
      {S : Type 0} (es : List DetailedError) (s : S) (t : Log)
      → Ensures (λ _ s' u. (s' ≡ s) × Logs es t u) (λ _ _ _. ⊥) (log_all es s t)
  unfolding log_all
  log_all_lem [] s t = (refl, Since-refl t)
  log_all_lem (e ∷ es) s t =
      resume-Ensures (λ _ s' u. (s' ≡ s) × (n : ℕ) × (u ≡ (Call.log e, done n) ∷ t)) (λ _ _ _. ⊥) _
        _ (log e s t) _ (log_lem serves e s t)
        (λ _ s' u (same, n, f).
          rw (same, f)
            (Ensures-mono (λ _ s'' v. (s'' ≡ s) × Logs es ((Call.log e, done n) ∷ t) v) (λ _ _ _. ⊥)
              _ _ (log_all es s ((Call.log e, done n) ∷ t))
              (log_all_lem es s ((Call.log e, done n) ∷ t))
              (λ _ s'' v (e', logs). (e', (t, n, Since-refl t, logs))) (λ _ _ _ x. x)))
        (λ _ _ _ x. x)

  -- The join, and the errors after it.
  joined_lem :
      (r : Runtime Listening) (late : List DetailedError) (next : Next) (st : Statics) (t₀ : Log)
      (g : Globals) (t : Log) (fd : ℕ)
      → Ledger fd 0 1 st t₀ g.events t
      → Ensures
          (λ next' g' u.
            (next' ≡ next)
            × (g' ≡ g)
            × ((n : ℕ) × Logs late ((Call.join_thread r.state_data.welcome_thread, done n) ∷ t) u)
            × Ledger fd 0 0 st t₀ g'.events u)
          (λ _ _ _. ⊥)
          ((drop_runtime false r >>= λ _. log_all late >>= λ _. pure next) g t)
  joined_lem r late next st t₀ g t fd a =
      resume-Ensures
        (λ _ g' u.
          (g' ≡ g) × (n : ℕ) × (u ≡ (Call.join_thread r.state_data.welcome_thread, done n) ∷ t))
        (λ _ _ _. ⊥) _ _ _ _
        (drop_runtime_lem g t ⊥ false _ r (serves.join t r.state_data.welcome_thread).1)
        (λ _ g' u (same, n, f).
          rw (same, f)
            (resume-Ensures
              (λ _ g'' v.
                ((g'' ≡ g)
                  × Logs late ((Call.join_thread r.state_data.welcome_thread, done n) ∷ t) v)
                × Ledger fd 0 0 st t₀ g''.events v)
              (λ _ g'' v. ⊥ × Ledger fd 0 0 st t₀ g''.events v) _ _ _ _
              (Ensures-both
                (λ _ g'' v.
                  (g'' ≡ g)
                  × Logs late ((Call.join_thread r.state_data.welcome_thread, done n) ∷ t) v)
                (λ _ _ _. ⊥) (λ _ g'' v. Ledger fd 0 0 st t₀ g''.events v)
                (λ _ g'' v. Ledger fd 0 0 st t₀ g''.events v) (log_all late g _)
                (log_all_lem late g _)
                (log_all-Kept serves fd 0 0 st t₀ late g _
                  (record { descriptors = a.descriptors; threads = omega (arith, a.threads) })))
              (λ _ g'' v ((same', logs), ledger). (refl, same', (n, logs), ledger))
              (λ e _ _ _. absurd e)))
        (λ _ _ _ x. x)

  pub finish_lem :
      (r : Runtime Listening) (life : Life) (got : Received) (st : Statics) (t₀ t : Log)
      (g : Globals) (v : Log) (fd : ℕ)
      → LoggedBy got (taken life.received) t v
      → Ledger fd 0 1 st t₀ g.events v
      → Ensures
          (λ next g' u.
            (g' ≡ g)
            × Finished r.state_data.welcome_thread life got next t u
            × Ledger fd 0 (left next) st t₀ g'.events u)
          (λ _ _ _. ⊥)
          (finish r life.late got g v)
  unfolding finish
  finish_lem r life stopping st t₀ t g v fd logs a =
      Ensures-mono
        (λ next' g' u.
          (next' ≡ exits 0)
          × (g' ≡ g)
          × ((n : ℕ) × Logs life.late ((Call.join_thread r.state_data.welcome_thread, done n) ∷ v)
                u)
          × Ledger fd 0 0 st t₀ g'.events u)
        (λ _ _ _. ⊥) _ _ _ (joined_lem r life.late (exits 0) st t₀ g v fd a)
        (λ next g' u (e, same, (n, late), ledger). rw e (same, (refl, (v, n, logs, late)), ledger))
        (λ _ _ _ x. x)
  finish_lem r life reloading st t₀ t g v fd logs a =
      Ensures-mono
        (λ next' g' u.
          (next' ≡ restarts)
          × (g' ≡ g)
          × ((n : ℕ) × Logs life.late ((Call.join_thread r.state_data.welcome_thread, done n) ∷ v)
                u)
          × Ledger fd 0 0 st t₀ g'.events u)
        (λ _ _ _. ⊥) _ _ _ (joined_lem r life.late restarts st t₀ g v fd a)
        (λ next g' u (e, same, (n, late), ledger). rw e (same, (refl, (v, n, logs, late)), ledger))
        (λ _ _ _ x. x)
  finish_lem r life killed st t₀ t g v fd since a = (refl, (refl, since), a)
  finish_lem r life waiting st t₀ t g v fd logs a = (refl, (refl, logs), a)

  pub with_runtime_lem :
      {A : Type 0} (P : A → Globals → Log → Type 0) (P' : Next → Globals → Log → Type 0)
      (r : Runtime Listening) (m : Main A) (f : A → Main Next) (g : Globals) (t : Log)
      → Ensures P (λ _ _ _. ⊥) (m g t)
      → ((a : A) (g' : Globals) (u : Log) → P a g' u → Ensures P' (λ _ _ _. ⊥) (f a g' u))
      → Ensures P' (λ _ _ _. ⊥) (with_runtime r m f g t)
  unfolding with_runtime
  with_runtime_lem {A = A} P P' r m f g t h next = ran (m g t) h
    where
      ran :
          (x : Outcome ⊥ A × Globals × Log)
          → Ensures P (λ _ _ _. ⊥) x
          → Ensures P' (λ _ _ _. ⊥) (with_runtime r (λ _ _. x) f g t)
      ran (ok a, g', u) h' = next a g' u h'
      ran (err e, g', u) h' = absurd h'
      ran (panic, g', u) h' = absurd h'

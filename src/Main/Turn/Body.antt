-- ===== src/Main/Turn/Body.antt =====
-- A turn of the outer loop of main, from the moment that its working directory is known.
use garnd.Prelude.{String, Option, ℕ, ◌≡◌, refl, ◌⊎◌, inl, inr, none, some, ◌∷◌}
use garnd.Constants.{exit_code_failure}
use garnd.Errors.{DetailedError, system}
use garnd.Io.{
  Call, done, failed, Log, Kernel, Outcome, ok, err, panic, Ensures, Ensures-mono, ErrorsOpen,
  resume-Ensures, resume, recover, pure,
}
use garnd.Signals.{Statics}
use garnd.Signals.Descriptors.{Ledger}
use garnd.Runtime.{Runtime, Listening, notify_system_listening}
use garnd.Runtime.Notified.{Sent, Unsent, notify_listening_lem}
use garnd.Main.{
  Globals, Life, Next, exits, log, listened, announced, entered, start_up, with_working_dir,
}
use garnd.Main.Signalled.{Serves, log_lem, first_signal, decide}
use garnd.Main.StartUp.{Begun, Ceased, start_up-Begun}
use garnd.Main.Finishing.{Finished, left}
use garnd.Main.Serving.{Concluded, served_lem, unannounced_lem}

-- The turn has listened: the first signal, with the circuit breaker for a reload, has decided.
abbrev pub Served : Runtime Listening → Life → Globals → Log → Next → Globals → Log → Type 0
Served r life g t next g' u =
    (n : ℕ) × (g' ≡ (decide g life.clock (first_signal life.received)).1)
    × Finished r.state_data.welcome_thread life (decide g life.clock (first_signal life.received)).0
        next ((Call.notify "Listening...", done n) ∷ t) u

-- Systemd could not be told that the daemon listens: of the calls since, none tells the welcome thread to
-- end, and the last one waits for its end.
abbrev pub Unannounced : Runtime Listening → Globals → Log → Next → Globals → Log → Type 0
Unannounced r g t next g' u =
    (next ≡ exits exit_code_failure)
    × (g' ≡ g)
    × (code n m : ℕ) × (u
        ≡ (Call.join_thread r.state_data.welcome_thread, done m)
          ∷ (Call.log (system code), done n)
          ∷ (Call.notify "Listening...", failed code)
          ∷ t)

-- Start-up failed: the error is logged last.
abbrev pub Refused : ℕ → Globals → Log → Next → Globals → Log → Type 0
Refused fd g t next g' u =
    (next ≡ exits exit_code_failure)
    × (e : DetailedError) × (n : ℕ) × (v : Log) × Ceased fd g t g' v
    × (u ≡ (Call.log e, done n) ∷ v)

-- What start-up came to, and what followed.
abbrev pub Started : ℕ → Life → Globals → Log → Next → Globals → Log → Type 0
Started fd life g t next g' u =
    Refused fd g t next g' u
    ⊎ ((r : Runtime Listening) × (g₁ : Globals) × (v : Log) × Begun fd g t r g₁ v
        × (Served r life g₁ v next g' u ⊎ Unannounced r g₁ v next g' u))

module _ ⦃k : Kernel⦄ (serves : Serves k) (fd : ℕ) where
  -- After start-up.
  abbrev Heard :
      Runtime Listening → Life → Globals → Log → Statics → Log → Next → Globals → Log → Type 0
  Heard r life g t st t₀ next g' u =
      (Served r life g t next g' u ⊎ Unannounced r g t next g' u)
      × Ledger fd 0 (left next) st t₀ g'.events u

  listened_lem :
      (r : Runtime Listening) (life : Life) (st : Statics) (t₀ t : Log) (g : Globals)
      → Ledger fd 0 1 st t₀ g.events t
      → Ensures (Heard r life g t st t₀) (λ _ _ _. ⊥) (listened r life g t)
  unfolding listened announced
  listened_lem r life st t₀ t g a =
      told (notify_system_listening r g t) (notify_listening_lem g t r)
    where
      told :
          (x : Outcome DetailedError (Unit {0}) × Globals × Log)
          → Ensures
              (λ _ s' u. Sent "Listening..." g t s' u)
              (λ e s' u. Unsent "Listening..." g t e s' u)
              x
          → Ensures
              (Heard r life g t st t₀)
              (λ _ _ _. ⊥)
              (resume (recover (resume x (λ _. pure none)) (λ e. pure (some e))) (announced r life))
      told (ok _, g', u) (same, n, f) =
          rw (same, f)
            (Ensures-mono
              (Concluded serves fd r life g ((Call.notify "Listening...", done n) ∷ t) st t₀)
              (λ _ _ _. ⊥) (Heard r life g t st t₀) (λ _ _ _. ⊥) _
              (served_lem serves fd r life st t₀ ((Call.notify "Listening...", done n) ∷ t) g
                (record { descriptors = a.descriptors; threads = a.threads }))
              (λ next g' u ((decided, fin), l). (inl (n, decided, fin), l)) (λ _ _ _ x. x))
      told (err e, g', u) (same, code, which, f) =
          rw (same, which, f)
            (Ensures-mono
              (λ next g' u.
                (((next ≡ exits exit_code_failure)
                  × (g' ≡ g)
                  × ((n m : ℕ) × (u
                        ≡ (Call.join_thread r.state_data.welcome_thread, done m)
                          ∷ (Call.log (system code), done n)
                          ∷ (Call.notify "Listening...", failed code)
                          ∷ t))))
                × Ledger fd 0 (left next) st t₀ g'.events u)
              (λ _ _ _. ⊥) (Heard r life g t st t₀) (λ _ _ _. ⊥) _
              (unannounced_lem serves fd r code st t₀
                ((Call.notify "Listening...", failed code) ∷ t) g
                (record { descriptors = a.descriptors; threads = a.threads }))
              (λ next g' u ((e₁, e₂, (n, m, f')), l). (inr (e₁, e₂, code, n, m, f'), l))
              (λ _ _ _ x. x))
      told (panic, g', u) h = absurd h

  pub started_lem :
      (life : Life) (working_dir : Option String) (g : Globals) (t : Log)
      → ErrorsOpen k
      → Ensures
          (λ next g' u.
            Started fd life g t next g' u × Ledger fd 0 (left next) g.events t g'.events u)
          (λ _ _ _. ⊥)
          (with_working_dir life (inl working_dir) g t)
  unfolding with_working_dir entered
  started_lem life working_dir g t open_errors =
      went (start_up life working_dir g t) (start_up-Begun open_errors fd life working_dir g t)
    where
      went :
          (x : Outcome DetailedError (Runtime Listening) × Globals × Log)
          → Ensures (λ r g' u. Begun fd g t r g' u) (λ _ g' u. Ceased fd g t g' u) x
          → Ensures
              (λ next g' u.
                Started fd life g t next g' u × Ledger fd 0 (left next) g.events t g'.events u)
              (λ _ _ _. ⊥)
              (resume (recover (resume x (λ r. pure (inl r))) (λ e. pure (inr e))) (entered life))
      went (ok r, g₁, v) begun =
          Ensures-mono (Heard r life g₁ v g.events t) (λ _ _ _. ⊥) _ _ (listened r life g₁ v)
            (listened_lem r life g.events t v g₁ begun.ledger)
            (λ next g' u (h, l). (inr (r, g₁, v, begun, h), l)) (λ _ _ _ x. x)
      went (err e, g₁, v) ceased =
          resume-Ensures (λ _ g' u. (g' ≡ g₁) × (n : ℕ) × (u ≡ (Call.log e, done n) ∷ v))
            (λ _ _ _. ⊥) _ _ (log e g₁ v) _ (log_lem serves e g₁ v)
            (λ _ g' u (same, n, f).
              rw (same, f)
                (
                  inl (refl, e, n, v, ceased, refl),
                  record {
                    descriptors = ceased.ledger.descriptors;
                    threads = ceased.ledger.threads;
                  },
                ))
            (λ _ _ _ x. x)
      went (panic, g₁, v) h = absurd h

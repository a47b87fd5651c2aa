-- ===== src/Runtime/Started.antt =====
-- What start-up has in hand, whether it succeeds or fails.
use garnd.Prelude.{one, ℕ, ◌≡◌, refl, Bool, arith, inl, inr, ◌∷◌}
use garnd.Io.{
  Call, Reply, done, Log, Kernel, Grows, Grows-resume, Grows-recover, call-Grows, ignore-Grows,
  pure-Grows, fail-Grows, Ensures, ErrorsOpen, Reply-cases, resume-Ensures, recover-Ensures,
  or_else, ignore, fail, ◌>>◌,
}
use garnd.Privileges.{Credentials}
use garnd.Privileges.Quiet.{Asked, check_privileges_quiet, check_privileges-Grows}
use garnd.Signals.{Statics, setup_events}
use garnd.Signals.Forward.{setup_socket-Grows, setup_events-Grows}
use garnd.Signals.Descriptors.{
  Ledger, Ledger-refl, Ledger-trans, Ledger-close_last, Ledger-since, Ledger-then,
  setup_socket-Ledger, setup_events-Ledger,
}
use garnd.Runtime.{Runtime, Uninit, Ready, Listening, init, listen}

abbrev pub spawn : Runtime Ready → Call
spawn r =
    Call.spawn_welcome_thread r.state_data.welcome_socket r.state_data.shutdown_event
      r.state_data.reload_event

-- The runtime's thread is the one just started.
abbrev pub Spawned : Runtime Ready → Runtime Listening → Log → Log → Type 0
Spawned r r' u v = v ≡ (spawn r, done r'.state_data.welcome_thread) ∷ u

Asked-Ledger : (fd : ℕ) (st st' : Statics) (t u : Log) → Asked st t st' u → Ledger fd 0 0 st t st' u
Asked-Ledger fd st st' t u (e, inl f) = rw (e, f) (Ledger-refl fd st t)
Asked-Ledger fd st st' t u (e, inr (n, f)) =
    rw (e, f) (record { descriptors = omega arith; threads = omega arith })

module _ ⦃k : Kernel⦄ (fd : ℕ) where
  events_or_close :
      (socket : ℕ) (st st' : Statics) (t u : Log)
      → Ledger fd (one socket fd) 0 st t st' u
      → Ensures
          (λ _ st'' v. Ledger fd (one socket fd) 0 st t st'' v)
          (λ _ st'' v. Ledger fd 0 0 st t st'' v)
          (or_else setup_events (λ e. ignore (Call.close socket) >> fail e) st' u)
  events_or_close socket st st' t u a =
      recover-Ensures (λ _ st'' v. Ledger fd 0 0 st' u st'' v)
        (λ _ st'' v. Ledger fd 0 0 st' u st'' v) _ _ (setup_events st' u) _
        (setup_events-Ledger fd st' u)
        (λ _ st'' v b. Ledger-since fd (one socket fd) 0 st st' st'' t u v a b)
        (λ e st'' v b.
          Ledger-close_last fd 0 socket _ st st'' t v
            (Ledger-since fd (one socket fd) 0 st st' st'' t u v a b))

  pub init-Ledger :
      (open_errors : ErrorsOpen k) (debug_assertions : Bool) (c : Credentials) (address : Reply ℕ)
      (r : Runtime Uninit) (st : Statics) (t : Log)
      → Ensures
          (λ r' st' u. Ledger fd (one r'.state_data.welcome_socket fd) 0 st t st' u)
          (λ _ st' u. Ledger fd 0 0 st t st' u)
          (init debug_assertions c address r st t)
  unfolding init
  init-Ledger open_errors debug_assertions c address r st t =
      resume-Ensures (λ _ st' u. Asked st t st' u) (λ _ st' u. Asked st t st' u) _ _ _ _
        (check_privileges_quiet open_errors st t debug_assertions c)
        (λ _ st₁ t₁ asked.
          resume-Ensures (λ socket st₂ u. Ledger fd (one socket fd) 0 st₁ t₁ st₂ u)
            (λ _ st₂ u. Ledger fd 0 0 st₁ t₁ st₂ u) _ _ _ _ (setup_socket-Ledger fd st₁ t₁ address)
            (λ socket st₂ t₂ a.
              resume-Ensures (λ _ st₃ v. Ledger fd (one socket fd) 0 st t st₃ v)
                (λ _ st₃ v. Ledger fd 0 0 st t st₃ v) _ _ _ _
                (events_or_close socket st st₂ t t₂ (
                  Ledger-then fd (one socket fd) 0 st st₁ st₂ t t₁ t₂
                    (Asked-Ledger fd st st₁ t t₁ asked) a))
                (λ _ _ _ b. b) (λ _ _ _ b. b))
            (λ _ st₂ t₂ a.
              Ledger-trans fd 0 0 0 0 st st₁ st₂ t t₁ t₂ (Asked-Ledger fd st st₁ t t₁ asked) a))
        (λ _ st₁ t₁ asked. Asked-Ledger fd st st₁ t t₁ asked)

  -- The socket in hand goes to the thread, or is closed.
  pub listen-Ledger :
      (S : Type 0) (r : Runtime Ready) (s : S) (st st' : Statics) (t u : Log)
      → Ledger fd (one r.state_data.welcome_socket fd) 0 st t st' u
      → Ensures
          (λ r' s' v. (s' ≡ s) × Spawned r r' u v × Ledger fd 0 1 st t st' v)
          (λ _ s' v. (s' ≡ s) × Ledger fd 0 0 st t st' v)
          (listen r s u)
  unfolding listen
  listen-Ledger S r s st st' t u a = elim (Reply-cases (k.answer u (spawn r))) [
    | inl (thread, e) ↦ rw e (
      refl,
      refl,
      record { descriptors = omega (arith, a.descriptors); threads = omega (arith, a.threads) },
    )
    | inr (n, e) ↦
        rw e (refl, record { descriptors = omega (arith, a.descriptors); threads = a.threads })
  ]

module _ ⦃k : Kernel⦄ where
  pub init-Grows :
      (open_errors : ErrorsOpen k) (debug_assertions : Bool) (c : Credentials) (address : Reply ℕ)
      (r : Runtime Uninit)
      → Grows (init debug_assertions c address r)
  unfolding init
  init-Grows open_errors debug_assertions c address r =
      Grows-resume _ _ (check_privileges-Grows open_errors debug_assertions c) (λ _.
        Grows-resume _ _ (setup_socket-Grows address) (λ fd.
          Grows-resume _ _
            (Grows-recover _ _ setup_events-Grows
              (λ e. Grows-resume _ _ (ignore-Grows (Call.close fd)) (λ _. fail-Grows e)))
            (λ events. pure-Grows _)))

  pub listen-Grows : {S : Type 0} (r : Runtime Ready) → Grows {S = S} (listen r)
  unfolding listen
  listen-Grows r =
      Grows-resume _ _
        (Grows-recover _ _ (call-Grows (spawn r)) (λ e.
          Grows-resume _ _ (ignore-Grows (Call.close r.state_data.welcome_socket))
            (λ _. fail-Grows e)))
        (λ thread. pure-Grows _)

-- ===== src/Signals/Descriptors.antt =====
-- Which descriptors start-up opens, closes and keeps, and that it starts and joins no thread.
use garnd.Prelude.{one, refl, ap, inl, inr, ℕ, ◌+◌, ◌≡◌, Option, none, some, [], ◌∷◌, arith}
use garnd.Errors.{DetailedError}
use garnd.Io.{
  Handler, termination_signal_handler, reload_signal_handler, Call, Reply, done, Log, Kernel,
  Ensures, Holds, Holds-resume, resume-Ensures, recover-Ensures, Reply-cases, call, pure, ◌>>=◌,
  ◌>>◌,
}
use garnd.Environment.Threads.{joined}
use garnd.Signals.{
  Statics, setup_socket, setup_events, adopt_shutdown_event, adopt_reload_event, sigterm, sigint,
  sighup,
}

-- How often a descriptor has been opened.
abbrev pub opened : ℕ → Log → ℕ
opened x [] = 0
opened x ((Call.socket, done fd) ∷ t) = opened x t + one fd x
opened x ((Call.eventfd_new, done fd) ∷ t) = opened x t + one fd x
opened x (_ ∷ t) = opened x t

abbrev pub closed : ℕ → Log → ℕ
closed x [] = 0
closed x ((Call.close fd, _) ∷ t) = closed x t + one fd x
closed x (_ ∷ t) = closed x t

-- How often it has been handed, as its socket, to a welcome thread that was started.
abbrev pub handed : ℕ → Log → ℕ
handed x [] = 0
handed x ((Call.spawn_welcome_thread fd _ _, done _) ∷ t) = handed x t + one fd x
handed x (_ ∷ t) = handed x t

-- Welcome threads started.
abbrev pub started : Log → ℕ
started [] = 0
started ((Call.spawn_welcome_thread _ _ _, done _) ∷ t) = started t + 1
started (_ ∷ t) = started t

-- Whether the statics hold it for the next start.
abbrev pub held : ℕ → Option ℕ → ℕ
held x none = 0
held x (some fd) = one fd x

abbrev pub kept : ℕ → Statics → ℕ
kept x st = held x st.shutdown_event_for_signal + held x st.reload_event_for_signal

-- The descriptor `x`, of which `n` are in hand: each time that it was opened between two moments it was
-- closed, handed to a thread with its start, or is kept by the statics. And `m` threads that were
-- started have not been joined.
pub record Ledger (x n m : ℕ) (st : Statics) (t : Log) (st' : Statics) (u : Log) : Type 0 where
  pub descriptors :
      n + kept x st' + closed x u + handed x u + opened x t
      ≡ kept x st + closed x t + handed x t + opened x u
  pub threads : m + joined u + started t ≡ started u + joined t

pub Ledger-refl : (x : ℕ) (st : Statics) (t : Log) → Ledger x 0 0 st t st t
Ledger-refl x st t = record { descriptors = omega arith; threads = omega arith }

pub Ledger-trans :
    (x n n' m m' : ℕ) (st st' st'' : Statics) (t u v : Log)
    → Ledger x n m st t st' u
    → Ledger x n' m' st' u st'' v
    → Ledger x (n + n') (m + m') st t st'' v
Ledger-trans x n n' m m' st st' st'' t u v a b = record {
  descriptors = omega (arith, a.descriptors, b.descriptors);
  threads = omega (arith, a.threads, b.threads);
}

-- With nothing in hand in between.
pub Ledger-then :
    (x n m : ℕ) (st st' st'' : Statics) (t u v : Log)
    → Ledger x 0 0 st t st' u
    → Ledger x n m st' u st'' v
    → Ledger x n m st t st'' v
Ledger-then x n m st st' st'' t u v a b = record {
  descriptors = omega (arith, a.descriptors, b.descriptors);
  threads = omega (arith, a.threads, b.threads);
}

-- With nothing in hand in addition.
pub Ledger-since :
    (x n m : ℕ) (st st' st'' : Statics) (t u v : Log)
    → Ledger x n m st t st' u
    → Ledger x 0 0 st' u st'' v
    → Ledger x n m st t st'' v
Ledger-since x n m st st' st'' t u v a b = record {
  descriptors = omega (arith, a.descriptors, b.descriptors);
  threads = omega (arith, a.threads, b.threads);
}

pub Ledger-close :
    (x n m fd : ℕ) (r : Reply ℕ) (st st' : Statics) (t u : Log)
    → Ledger x (one fd x + n) m st t st' u
    → Ledger x n m st t st' ((Call.close fd, r) ∷ u)
Ledger-close x n m fd r st st' t u a = record {
  descriptors = omega (arith, a.descriptors);
  threads = a.threads;
}

pub Ledger-close_last :
    (x m fd : ℕ) (r : Reply ℕ) (st st' : Statics) (t u : Log)
    → Ledger x (one fd x) m st t st' u
    → Ledger x 0 m st t st' ((Call.close fd, r) ∷ u)
Ledger-close_last x m fd r st st' t u a = record {
  descriptors = omega (arith, a.descriptors);
  threads = a.threads;
}

module _ ⦃k : Kernel⦄ (x : ℕ) (st : Statics) (t : Log) where
  pub setup_socket-Ledger :
      (address : Reply ℕ)
      → Ensures
          (λ fd st' u. Ledger x (one fd x) 0 st t st' u)
          (λ _ st' u. Ledger x 0 0 st t st' u)
          (setup_socket address st t)
  unfolding setup_socket
  setup_socket-Ledger address = ground arith

  -- The new event is kept, or closed for the one that was kept before.
  adopt_shutdown_event-Ledger :
      (new n : ℕ) (old : Option ℕ) (st' : Statics) (u : Log)
      → st'.shutdown_event_for_signal ≡ old
      → Ledger x (one new x + n) 0 st t st' u
      → Ensures
          (λ _ st'' v.
            (st''.reload_event_for_signal ≡ st'.reload_event_for_signal) × Ledger x n 0 st t st'' v)
          (λ _ _ _. ⊥)
          (adopt_shutdown_event new old st' u)
  unfolding adopt_shutdown_event
  adopt_shutdown_event-Ledger new n none st' u e a = (
    refl,
    record { descriptors = omega (arith, a.descriptors, ap (held x) e); threads = a.threads },
  )
  adopt_shutdown_event-Ledger new n (some fd) st' u e a =
      (refl, Ledger-close x n 0 new _ st st' t u a)

  adopt_reload_event-Ledger :
      (new n : ℕ) (old : Option ℕ) (st' : Statics) (u : Log)
      → st'.reload_event_for_signal ≡ old
      → Ledger x (one new x + n) 0 st t st' u
      → Ensures
          (λ _ st'' v. Ledger x n 0 st t st'' v)
          (λ _ _ _. ⊥)
          (adopt_reload_event new old st' u)
  unfolding adopt_reload_event
  adopt_reload_event-Ledger new n none st' u e a = record {
    descriptors = omega (arith, a.descriptors, ap (held x) e);
    threads = a.threads;
  }
  adopt_reload_event-Ledger new n (some fd) st' u e a = Ledger-close x n 0 new _ st st' t u a

  sigaction-Ledger :
      (signal : ℕ) (handler : Handler) (n : ℕ) (st' : Statics) (u : Log)
      → Ledger x n 0 st t st' u
      → Holds (Ledger x n 0 st t) (call (Call.sigaction signal handler) st' u)
  sigaction-Ledger signal handler n st' u a =
      elim (Reply-cases (k.answer u (Call.sigaction signal handler))) [
        | inl (m, e) ↦ rw e (record { descriptors = a.descriptors; threads = a.threads })
        | inr (m, e) ↦ rw e (record { descriptors = a.descriptors; threads = a.threads })
      ]

  eventfd_new-Ledger :
      (n : ℕ) (st' : Statics) (u : Log)
      → Ledger x n 0 st t st' u
      → Ensures
          (λ fd st'' v. (st'' ≡ st') × Ledger x (one fd x + n) 0 st t st'' v)
          (λ _ st'' v. (st'' ≡ st') × Ledger x n 0 st t st'' v)
          (call Call.eventfd_new st' u)
  eventfd_new-Ledger n st' u a = elim (Reply-cases (k.answer u Call.eventfd_new)) [
    | inl (m, e) ↦
        rw e (refl, record { descriptors = omega (arith, a.descriptors); threads = a.threads })
    | inr (m, e) ↦ rw e (refl, record { descriptors = a.descriptors; threads = a.threads })
  ]

  -- Both events are in hand.
  adopted-Ledger :
      (shutdown reload : ℕ) (st' : Statics) (u : Log)
      → Ledger x (one shutdown x + one reload x) 0 st t st' u
      → Holds {S = Statics} {E = DetailedError} {A = ℕ × ℕ} (Ledger x 0 0 st t) (
          (do
            shutdown_event ← adopt_shutdown_event shutdown st'.shutdown_event_for_signal
            reload_event ← adopt_reload_event reload st'.reload_event_for_signal
            call (Call.sigaction sigterm termination_signal_handler)
            call (Call.sigaction sigint termination_signal_handler)
            call (Call.sigaction sighup reload_signal_handler)
            pure (shutdown_event, reload_event))
            st' u)
  adopted-Ledger shutdown reload st' u a =
      resume-Ensures
        (λ _ st₁ v.
          (st₁.reload_event_for_signal ≡ st'.reload_event_for_signal)
          × Ledger x (one reload x + 0) 0 st t st₁ v)
        (λ _ _ _. ⊥) _ _ _ _
        (adopt_shutdown_event-Ledger shutdown (one reload x + 0) st'.shutdown_event_for_signal st' u
          refl (record { descriptors = omega (arith, a.descriptors); threads = a.threads }))
        (λ s st₁ v (same, b).
          resume-Ensures (λ _ st₂ w. Ledger x 0 0 st t st₂ w) (λ _ _ _. ⊥) _ _ _ _
            (adopt_reload_event-Ledger reload 0 st'.reload_event_for_signal st₁ v same b)
            (λ r st₂ w c.
              Holds-resume (Ledger x 0 0 st t) _ _
                (sigaction-Ledger sigterm termination_signal_handler 0 st₂ w c)
                (λ _ st₃ z d.
                  Holds-resume (Ledger x 0 0 st t) _ _
                    (sigaction-Ledger sigint termination_signal_handler 0 st₃ z d)
                    (λ _ st₄ y f.
                      Holds-resume (Ledger x 0 0 st t) _ _
                        (sigaction-Ledger sighup reload_signal_handler 0 st₄ y f) (λ _ _ _ g. g))))
            (λ e _ _ h. absurd h))
        (λ e _ _ h. absurd h)

  pub setup_events-Ledger : Holds (Ledger x 0 0 st t) (setup_events st t)
  unfolding setup_events
  setup_events-Ledger =
      resume-Ensures (λ shutdown st' u. (st' ≡ st) × Ledger x (one shutdown x + 0) 0 st t st' u)
        (λ _ st' u. (st' ≡ st) × Ledger x 0 0 st t st' u) _ _ _ _
        (eventfd_new-Ledger 0 st t (Ledger-refl x st t))
        (λ shutdown st₁ u (same, a).
          resume-Ensures
            (λ reload st' v.
              (st' ≡ st₁) × Ledger x (one reload x + (one shutdown x + 0)) 0 st t st' v)
            (λ _ st' v. Ledger x 0 0 st t st' v) _ _ _ _
            (recover-Ensures
              (λ reload st' v.
                (st' ≡ st₁) × Ledger x (one reload x + (one shutdown x + 0)) 0 st t st' v)
              (λ _ st' v. (st' ≡ st₁) × Ledger x (one shutdown x + 0) 0 st t st' v) _ _ _ _
              (eventfd_new-Ledger (one shutdown x + 0) st₁ u a) (λ _ _ _ h. h)
              (λ e st' v (_, b). Ledger-close x 0 0 shutdown _ st st' t v b))
            (λ reload st' v (_, b).
              adopted-Ledger shutdown reload st' v
                (record { descriptors = omega (arith, b.descriptors); threads = b.threads }))
            (λ _ _ _ h. h))
        (λ _ _ _ (_, h). h)

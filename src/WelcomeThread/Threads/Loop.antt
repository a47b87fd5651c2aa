-- ===== src/WelcomeThread/Threads/Loop.antt =====
-- The event loop.
use garnd.Prelude.{
  ℕ, ◌≡◌, refl, All, ◌⊎◌, inl, inr, Bool-cases, false, Option, none, some, List, [], ◌∷◌, ◌++◌,
}
use garnd.Errors.{
  DetailedError, system, runtime, welcome_socket_failed, shutdown_signal, reload_request,
}
use garnd.Io.{
  Call, done, Log, Kernel, Ensures, Ensures-mono, Reply-cases, ErrorsOpen, send_error,
  send_all_errors, Holds, Holds-resume, Holds-recover, resume-Ensures, resume,
}
use garnd.Protocols.{Garnshared, WelcomeRequest, open_environment}
use garnd.Environment.Handover.{Ends}
use garnd.WelcomeThread.{
  WelcomeThread, Round, Sources, Flow, PollFlags, proceed, leave, any, acknowledge,
  environment_shutdown, receive_and_parse_request, handle_request, serve, welcome_event, polled,
  signal, give_up, round, event_loop,
}
use garnd.WelcomeThread.Threads.Receiving.{receive-Unmoved}
use garnd.WelcomeThread.Threads.Closing.{acknowledge-Accounted, environment_shutdown-Accounted}
use garnd.WelcomeThread.Threads.Opening.{handle_open_environment-Accounted}
use garnd.WelcomeThread.Threads.{
  Accounted, Accounted-tally, Unmoved-Accounted, send_error-Accounted, send_all-Accounted,
}

-- The last call has told main that the thread ends: a shutdown signal or a reload request.
abbrev pub Told : Log → Type 0
Told u =
    (e : DetailedError) × (n : ℕ) × (v : Log) × (u ≡ (Call.send_error e, done n) ∷ v)
    × ((e ≡ shutdown_signal) ⊎ (e ≡ reload_request))

-- Neither event is raised.
abbrev pub Calm : Round → Type 0
Calm r = (any r.shutdown ≡ false) × (any r.reload ≡ false)

abbrev pub PollSucceeds : Kernel → Type 0
PollSucceeds k = (t : Log) → (n : ℕ) × (k.answer t Call.poll ≡ done n)

-- The loop goes on, as it is calm, or is left after a word to main, since it is not calm or cannot
-- poll.
abbrev pub Ended : ⦃k : Kernel⦄ → Type 0 → Flow → Log → Type 0
Ended ⦃k⦄ C flow u = ((flow ≡ proceed) × C) ⊎ ((flow ≡ leave) × Told u × (PollSucceeds k → C → ⊥))

module _ ⦃k : Kernel⦄ ⦃g : Garnshared⦄ (ends : Ends k) (open_errors : ErrorsOpen k) (t₀ : Log) where
  handle_request-Accounted :
      (r : ℕ × WelcomeRequest) (w : WelcomeThread) (t : Log)
      → Accounted t₀ w t
      → Holds (Accounted t₀) (handle_request r w t)
  unfolding handle_request
  handle_request-Accounted (client, open_environment name) w t a =
      handle_open_environment-Accounted ends t₀ name client w t a

  serve-Accounted :
      (src : Sources) (w : WelcomeThread) (t : Log)
      → Accounted t₀ w t
      → Holds (Accounted t₀) (serve src w t)
  unfolding serve
  serve-Accounted src w t a =
      Holds-recover (Accounted t₀)
        (resume (receive_and_parse_request src.welcome_socket w t) handle_request) send_all_errors
        (Holds-resume (Accounted t₀) (receive_and_parse_request src.welcome_socket w t)
          handle_request
          (Unmoved-Accounted t₀ (receive_and_parse_request src.welcome_socket w t) w t a
            (receive-Unmoved src.welcome_socket w t))
          handle_request-Accounted)
        (send_all-Accounted open_errors t₀)

  welcome_event-Accounted :
      (src : Sources) (flags : Option PollFlags) (w : WelcomeThread) (t : Log)
      → Accounted t₀ w t
      → Holds (Accounted t₀) (welcome_event src flags w t)
  unfolding welcome_event any
  welcome_event-Accounted src none w t a = a
  welcome_event-Accounted src (some f) w t a = elim (Bool-cases (f.input)) [
    | inl input ↦ simp input (serve-Accounted src w t a)
    | inr no_input ↦ elim (Bool-cases f.other) [
      | inl broken ↦
          simp (no_input, broken)
            (Holds-resume (Accounted t₀) (send_error (runtime welcome_socket_failed) w t) _
              (send_error-Accounted open_errors t₀ (runtime welcome_socket_failed) w t a)
              (λ _ w' u b. send_error-Accounted open_errors t₀ shutdown_signal w' u b))
      | inr quiet ↦ simp (no_input, quiet) a
    ]
  ]

  -- The thread's last words.
  tell :
      (e : DetailedError) (w : WelcomeThread) (t : Log)
      → (e ≡ shutdown_signal) ⊎ (e ≡ reload_request)
      → Accounted t₀ w t
      → Ensures {E = ⊥} (λ _ w' u. Accounted t₀ w' u × Told u) (λ _ _ _. ⊥) (send_error e w t)
  unfolding send_error
  tell e w t last a =
      rw (open_errors t e).1
        (record { distinct = a.distinct; count = a.count }, (e, _, t, refl, last))

  signal-Leaves :
      (fd : ℕ) (e : DetailedError) (w : WelcomeThread) (t : Log)
      → (e ≡ shutdown_signal) ⊎ (e ≡ reload_request)
      → Accounted t₀ w t
      → Ensures
          (λ flow w' u. Accounted t₀ w' u × (flow ≡ leave) × Told u)
          (λ _ _ _. ⊥)
          (signal fd e w t)
  unfolding signal
  signal-Leaves fd e w t last a =
      resume-Ensures (λ _ w' u. Accounted t₀ w' u) (λ _ w' u. Accounted t₀ w' u) _ _
        (acknowledge fd w t) _ (acknowledge-Accounted ends open_errors t₀ fd w t a)
        (λ _ w' u b.
          resume-Ensures (λ _ w'' v. Accounted t₀ w'' v × Told v) (λ _ _ _. ⊥) _ _
            (send_error e w' u) _ (tell e w' u last b) (λ _ w'' v (c, told). (c, refl, told))
            (λ _ _ _ x. x))
        (λ x _ _ _. absurd x)

  give_up-Leaves :
      (e : DetailedError) (w : WelcomeThread) (t : Log)
      → Accounted t₀ w t
      → Ensures
          (λ flow w' u. Accounted t₀ w' u × (flow ≡ leave) × Told u)
          (λ _ _ _. ⊥)
          (give_up e w t)
  unfolding give_up
  give_up-Leaves e w t a =
      resume-Ensures (λ _ w' u. Accounted t₀ w' u) (λ _ w' u. Accounted t₀ w' u) _ _
        (send_error e w t) _ (send_error-Accounted open_errors t₀ e w t a)
        (λ _ w' u b.
          resume-Ensures (λ _ w'' v. Accounted t₀ w'' v × Told v) (λ _ _ _. ⊥) _ _
            (send_error reload_request w' u) _ (tell reload_request w' u (inr refl) b)
            (λ _ w'' v (c, told). (c, refl, told)) (λ _ _ _ x. x))
        (λ x _ _ _. absurd x)

  polled-Ended :
      (src : Sources) (r : Round) (w : WelcomeThread) (t : Log)
      → Accounted t₀ w t
      → Ensures
          (λ flow w' u. Accounted t₀ w' u × Ended (Calm r) flow u)
          (λ _ _ _. ⊥)
          (polled src r w t)
  unfolding polled
  polled-Ended src r w t a = elim (Bool-cases (any r.shutdown)) [
    | inl down ↦ rw down (
        Ensures-mono (λ flow w' u. Accounted t₀ w' u × (flow ≡ leave) × Told u) (λ _ _ _. ⊥) _ _
          (signal src.shutdown_event shutdown_signal w t)
          (signal-Leaves src.shutdown_event shutdown_signal w t (inl refl) a)
          (λ _ w' u (b, left, told). (b, inr (left, told, λ p (c, _). cc))) (λ _ _ _ x. x))
    | inr up ↦ elim (Bool-cases (any r.reload)) [
      | inl reload ↦
          rw (up, reload)
            (Ensures-mono (λ flow w' u. Accounted t₀ w' u × (flow ≡ leave) × Told u) (λ _ _ _. ⊥) _
              _ (signal src.reload_event reload_request w t)
              (signal-Leaves src.reload_event reload_request w t (inr refl) a)
              (λ _ w' u (b, left, told). (b, inr (left, told, λ p (_, c). cc))) (λ _ _ _ x. x))
      | inr calm ↦
          rw (up, calm)
            (resume-Ensures (λ _ w' u. Accounted t₀ w' u) (λ _ w' u. Accounted t₀ w' u) _ _
              (environment_shutdown src r.close_env w t) _
              (environment_shutdown-Accounted ends open_errors t₀ src r.close_env w t a)
              (λ _ w' u b.
                resume-Ensures (λ _ w'' v. Accounted t₀ w'' v) (λ _ w'' v. Accounted t₀ w'' v) _ _
                  (welcome_event src r.welcome w' u) _
                  (welcome_event-Accounted src r.welcome w' u b)
                  (λ _ w'' v c. (c, inl (refl, (refl, refl)))) (λ x _ _ _. absurd x))
              (λ x _ _ _. absurd x))
    ]
  ]

  more :
      (r : Round) (rs : List Round)
      → Calm r
      → (flow : Flow) (u : Log) → Ended (All Calm rs) flow u
      → Ended (All Calm (r ∷ rs)) flow u
  more r rs calm flow u (inl (goes, rest)) = inl (goes, (calm, rest))
  more r rs calm flow u (inr (left, told, why)) = inr (left, told, λ p c. why p c.1)

  round-Ended :
      (src : Sources) (r : Round) (w : WelcomeThread) (t : Log)
      → Accounted t₀ w t
      → Ensures
          (λ flow w' u. Accounted t₀ w' u × Ended (Calm r) flow u)
          (λ _ _ _. ⊥)
          (round src r w t)
  unfolding round
  round-Ended src r w t a =
      let w' : WelcomeThread = record w { close_env_rx = w.close_env_rx ++ r.closing } in
      let b : Accounted t₀ w' t = record { distinct = a.distinct; count = a.count } in
      elim (Reply-cases (k.answer t Call.poll)) [
        | inl (n, woken) ↦ rw woken (polled-Ended src r w' _ (Accounted-tally t₀ t _ w' refl b))
        | inr (n, lost) ↦ rw lost (
            Ensures-mono (λ flow w'' u. Accounted t₀ w'' u × (flow ≡ leave) × Told u) (λ _ _ _. ⊥) _
              _ (give_up (system n) w' _)
              (give_up-Leaves (system n) w' _ (Accounted-tally t₀ t _ w' refl b))
              (λ _ w'' u (c, left, told). (c, inr (left, told, λ p _. absurd (cc (lost, (p t).1)))))
              (λ _ _ _ x. x))
      ]

  pub event_loop-Ended :
      (src : Sources) (rs : List Round) (w : WelcomeThread) (t : Log)
      → Accounted t₀ w t
      → Ensures
          (λ flow w' u. Accounted t₀ w' u × Ended (All Calm rs) flow u)
          (λ _ _ _. ⊥)
          (event_loop src rs w t)
  unfolding event_loop
  event_loop-Ended src [] w t a = (a, inl (refl, tt))
  event_loop-Ended src (r ∷ rs) w t a =
      resume-Ensures (λ flow w' u. Accounted t₀ w' u × Ended (Calm r) flow u) (λ _ _ _. ⊥) _ _
        (round src r w t) _ (round-Ended src r w t a)
        (λ flow w' u (b, ended). elim ended [
          | inl (goes, calm) ↦ rw goes (
              Ensures-mono (λ flow' w'' v. Accounted t₀ w'' v × Ended (All Calm rs) flow' v)
                (λ _ _ _. ⊥) _ _ (event_loop src rs w' u) (event_loop-Ended src rs w' u b)
                (λ flow' w'' v (c, ended'). (c, more r rs calm flow' v ended')) (λ _ _ _ x. x))
          | inr (left, told, why) ↦ rw left (b, inr (refl, told, λ p c. why p c.0))
        ])
        (λ _ _ _ x. x)

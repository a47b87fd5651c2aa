-- ===== src/EnvironmentThread/Lifetime.antt =====
-- The event loop of an environment over its whole life: it does not panic, and the mutexes stay.
use garnd.Prelude.{
  ℕ, ◌+◌, ◌<◌, ◌≡◌, inl, inr, Bool-cases, Bool, true, Option, none, some, List, [], ◌∷◌, ◌++◌,
  length, String, arith, ◌==◌,
}
use garnd.Errors.{DetailedError, system}
use garnd.Io.{
  Call, done, Log, Kernel, Ensures, Ensures-mono, Io, Outcome, ok, err, panic, call, or_else, pure,
  ◌>>◌, Reply-cases, ErrorsOpen, send_error-Open, send_all_errors-Open, send_error, send_all_errors,
}
use garnd.Protocols.{Garnshared}
use garnd.Requests.{serve_client}
use garnd.Requests.Kept.{Keeps, Keeps-refl, Keeps-trans}
use garnd.Requests.Client.{Answered, received, serve_client_answers}
use garnd.Shm.{ShmAllocator}
use garnd.Shm.Invariant.{IsValid}
use garnd.SocketSet
use garnd.SocketSet.{SocketSet}
use garnd.SocketSet.Laws.{remove-returns}
use garnd.EnvironmentThread.Alive.{Alive, Safe, Safe-resume, Safe-recover, call-Safe, flow-Safe}
use garnd.EnvironmentThread.{
  Handles, EnvThread, EpollEvent, Round, is_empty, shm_of, sockets_of, watch, receive_listeners,
  add_listener, respond, pass_result, announce_env_close, report_error_and_close, serve, part,
  handle_event, handle_events, round, event_loop,
}

module _ ⦃k : Kernel⦄ ⦃g : Garnshared⦄ (shm : ShmAllocator) (open_errors : ErrorsOpen k)
    (align : 0 < g.pthread_mutex.align) {text : String}
    (answer : g.environment.serialize g.environment.malformed_request ≡ done text) where
  receive_listeners-Safe :
      (fds : List ℕ) (e : EnvThread) (t : Log) → Alive shm e → Safe shm (receive_listeners fds e t)
  unfolding receive_listeners watch
  receive_listeners-Safe [] e t a = simp a.owner a
  receive_listeners-Safe (fd ∷ fds) e t a = elim (Reply-cases (k.answer t (Call.epoll_add fd))) [
    | inl (n, added) ↦
        rw added (receive_listeners-Safe fds _ _ (record { keeps = a.keeps; owner = a.owner }))
    | inr (n, refused) ↦ rw refused (record { keeps = a.keeps; owner = a.owner })
  ]

  add_listener-Safe :
      (h : Handles) (e : EnvThread) (t : Log) → Alive shm e → Safe shm (add_listener h e t)
  unfolding add_listener
  add_listener-Safe h e t a =
      elim (Reply-cases (k.answer t (Call.eventfd_read h.add_listener_event))) [
        | inl (n, got) ↦ rw got (receive_listeners-Safe e.add_listener_rx e _ a)
        | inr (n, lost) ↦ rw lost a
      ]

  respond-Safe :
      (r : Option DetailedError) (e : EnvThread) (t : Log) → Alive shm e → Safe shm (respond r e t)
  unfolding respond
  respond-Safe r e t a = elim (Reply-cases (k.answer t (Call.send_response r))) [
    | inl (n, sent) ↦ rw sent a
    | inr (n, lost) ↦ rw lost (
        Ensures-mono (λ _ s _. s ≡ e) (λ _ _ _. ⊥) _ _ _ (send_error-Open open_errors ⊥ _ e _)
          (λ _ s u same. rw same a) (λ _ _ _ x. absurd x))
  ]

  send_all-Safe :
      (es : List DetailedError) (e : EnvThread) (t : Log)
      → Alive shm e
      → Safe shm (send_all_errors {E = ⊥} es e t)
  send_all-Safe es e t a =
      Ensures-mono (λ _ s _. s ≡ e) (λ _ _ _. ⊥) _ _ (send_all_errors es e t)
        (send_all_errors-Open open_errors ⊥ es e t) (λ _ s u same. rw same a) (λ _ _ _ x. absurd x)

  served :
      (e : EnvThread) (x : Outcome (List DetailedError) (Unit {0}) × ShmAllocator × Log)
      → Alive shm e
      → Ensures (λ _ s _. Keeps e.shm s) (λ _ s _. Keeps e.shm s) x
      → Safe shm (x.0, record e { shm = x.1 }, x.2)
  served e (ok _, s, u) a h = record { keeps = Keeps-trans shm e.shm s a.keeps h; owner = a.owner }
  served e (err _, s, u) a h = record { keeps = Keeps-trans shm e.shm s a.keeps h; owner = a.owner }
  served e (panic, s, u) a h = absurd h

  serve-Safe : (fd : ℕ) (e : EnvThread) (t : Log) → Alive shm e → Safe shm (serve fd e t)
  unfolding serve
  serve-Safe fd e t a =
      Safe-resume shm (or_else (shm_of (serve_client fd)) send_all_errors e t) _
        (Safe-recover shm (shm_of (serve_client fd) e t) send_all_errors
          (served e (serve_client fd e.shm t) a (
            Ensures-mono (answered_by e) (answered_by e) _ _ (serve_client fd e.shm t)
              (serve_client_answers fd e.shm t a.keeps.valid align answer)
              (λ _ s u (keeps, _). keeps) (λ _ s u (keeps, _). keeps)))
          send_all-Safe)
        (λ _ s u x. x)
    where
      answered_by : {A : Type 0} → EnvThread → A → ShmAllocator → Log → Type 0
      answered_by e =
          Answered e.shm fd t (received (k.answer t (Call.recv fd g.environment.max_size)))

  removed :
      (e : EnvThread) (x : Outcome ⊥ Bool × SocketSet × Log)
      → Alive shm e
      → Ensures (λ _ _ _. Unit) (λ _ _ _. ⊥) x
      → Safe shm (x.0, record e { sockets = x.1 }, x.2)
  removed e (ok _, s, u) a h = record { keeps = a.keeps; owner = a.owner }
  removed e (err _, s, u) a h = absurd h
  removed e (panic, s, u) a h = absurd h

  send_error-Safe :
      (b : DetailedError) (e : EnvThread) (t : Log)
      → Alive shm e
      → Safe shm (send_error {E = ⊥} b e t)
  send_error-Safe b e t a =
      Ensures-mono (λ _ s _. s ≡ e) (λ _ _ _. ⊥) _ _ (send_error b e t)
        (send_error-Open open_errors ⊥ b e t) (λ _ s u same. rw same a) (λ _ _ _ x. absurd x)

  announce-Safe :
      (h : Handles) (e : EnvThread) (t : Log)
      → Alive shm e
      → Safe shm {E = ⊥} (announce_env_close h e t)
  unfolding announce_env_close
  announce-Safe h e t a = ground (arith, a)

  part-Safe :
      (h : Handles) (fd : ℕ) (e : EnvThread) (t : Log) → Alive shm e → Safe shm (part h fd e t)
  unfolding part
  part-Safe h fd e t a =
      Safe-resume shm (sockets_of (SocketSet.remove fd) e t) _
        (removed e (SocketSet.remove fd e.sockets t) a (remove-returns ⊥ fd e.sockets t))
        (λ _ s u b. elim (Bool-cases (is_empty s.sockets)) [
          | inl last ↦ rw last (
              Safe-resume shm (announce_env_close h s u) _ (announce-Safe h s u b) (λ es s' u' c.
                Safe-resume shm (send_all_errors es s' u') _ (send_all-Safe es s' u' c)
                  (λ _ _ _ x. x)))
          | inr others ↦ rw others b
        ])

  pass_result-Safe :
      (m : Io EnvThread DetailedError (Unit {0})) (e : EnvThread) (t : Log)
      → Safe shm (m e t)
      → Safe shm (pass_result m e t)
  unfolding pass_result
  pass_result-Safe m e t safe =
      Safe-resume shm (or_else (m >> pure none) (λ e'. pure (some e')) e t) _
        (Safe-recover shm ((m >> pure none) e t) _ (Safe-resume shm (m e t) _ safe (λ _ _ _ x. x))
          (λ _ _ _ x. x))
        respond-Safe

  handle_event-Safe :
      (h : Handles) (event : EpollEvent) (e : EnvThread) (t : Log)
      → Alive shm e
      → Safe shm (handle_event h event e t)
  unfolding handle_event
  handle_event-Safe h event e t a = elim (Bool-cases (event.token == h.add_listener_event)) [
    | inl listener ↦ rw listener (
        Safe-resume shm (pass_result (add_listener h) e t) _
          (pass_result-Safe (add_listener h) e t (add_listener-Safe h e t a)) (λ _ _ _ x. x))
    | inr other ↦ elim (Bool-cases (event.token == h.drop_event)) [
      | inl drop ↦
          rw (other, drop)
            (Safe-resume shm
              (or_else (call (Call.eventfd_read h.drop_event) >> pure tt) send_error e t) _
              (Safe-recover shm ((call (Call.eventfd_read h.drop_event) >> pure tt) e t) send_error
                (Safe-resume shm (call (Call.eventfd_read h.drop_event) e t) _
                  (call-Safe shm _ e t a) (λ _ _ _ x. x))
                send_error-Safe)
              (λ _ _ _ x. x))
      | inr client ↦ elim (Bool-cases event.hung_up) [
        | inl gone ↦ simp (other, client, gone) (part-Safe h _ e t a)
        | inr asks ↦ simp (other, client, asks) (serve-Safe _ e t a)
      ]
    ]
  ]

  handle_events-Safe :
      (h : Handles) (events : List EpollEvent) (e : EnvThread) (t : Log)
      → Alive shm e
      → Safe shm (handle_events h events e t)
  unfolding handle_events
  handle_events-Safe h [] e t a = a
  handle_events-Safe h (event ∷ events) e t a =
      Safe-resume shm (handle_event h event e t) _ (handle_event-Safe h event e t a) (λ flow s u b.
        flow-Safe shm flow (handle_events h events) s u b (handle_events-Safe h events s u b))

  report-Safe :
      (b : DetailedError) (h : Handles) (e : EnvThread) (t : Log)
      → Alive shm e
      → Safe shm {E = ⊥} (report_error_and_close b h e t)
  unfolding report_error_and_close
  report-Safe b h e t a = rw (open_errors t b).1 (
      Safe-resume shm (announce_env_close h e _) _ (announce-Safe h e _ a)
        (λ fs s u c. send_all-Safe fs s u c))

  round-Safe :
      (h : Handles) (r : Round) (e : EnvThread) (t : Log) → Alive shm e → Safe shm (round h r e t)
  unfolding round
  round-Safe h r e t a =
      let e' : EnvThread = record e { add_listener_rx = e.add_listener_rx ++ r.arrivals } in
      let a' : Alive shm e' = record { keeps = a.keeps; owner = a.owner } in
      elim (Reply-cases (k.answer t (Call.epoll_wait (length e.sockets + 2)))) [
        | inl (n, got) ↦ rw got (handle_events-Safe h r.events e' _ a')
        | inr (n, lost) ↦ rw lost (
            Safe-resume shm (report_error_and_close (system n) h e' _) _
              (report-Safe (system n) h e' _ a') (λ _ _ _ x. x))
      ]

  event_loop-Safe :
      (h : Handles) (rs : List Round) (e : EnvThread) (t : Log)
      → Alive shm e
      → Safe shm (event_loop h rs e t)
  unfolding event_loop
  event_loop-Safe h [] e t a = a
  event_loop-Safe h (r ∷ rs) e t a =
      Safe-resume shm (round h r e t) _ (round-Safe h r e t a)
        (λ flow s u b. flow-Safe shm flow (event_loop h rs) s u b (event_loop-Safe h rs s u b))

-- Over the whole life of an environment: if main holds the error channel and the welcome thread the
-- environment, the malformed-request response serializes, the mutex alignment is above zero and the
-- allocator is valid, then the event loop does not panic whatever events arrive and whichever calls
-- fail, the allocator is valid again, and every mutex that was known at a location still is.
pub event_loop-Keeps :
    ⦃k : Kernel⦄ ⦃g : Garnshared⦄ {text : String}
    → ErrorsOpen k
    → 0 < g.pthread_mutex.align
    → g.environment.serialize g.environment.malformed_request ≡ done text
    → (h : Handles) (rs : List Round) (e : EnvThread) (t : Log) → IsValid e.shm
    → e.owner_alive ≡ true
    → Ensures (λ _ e' _. Keeps e.shm e'.shm) (λ _ _ _. ⊥) (event_loop h rs e t)
event_loop-Keeps errors align answer h rs e t valid owner =
    Ensures-mono (λ _ s _. Alive e.shm s) (λ _ s _. Alive e.shm s) _ _ (event_loop h rs e t)
      (event_loop-Safe e.shm errors align answer h rs e t
        (record { keeps = Keeps-refl e.shm valid; owner = owner }))
      (λ _ s u a. a.keeps) (λ b _ _ _. b)

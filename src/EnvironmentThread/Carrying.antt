-- ===== src/EnvironmentThread/Carrying.antt =====
-- The event loop of an environment carries along what its parts do: a property of the thread and of its
-- log that receiving a socket, dropping one and serving a client each leave true.
use garnd.Prelude.{
  ℕ, ◌+◌, ◌≡◌, refl, Bool, true, false, Option, none, some, List, [], ◌∷◌, ◌++◌, length, ◌==◌,
}
use garnd.Errors.{DetailedError}
use garnd.Io.{
  Call, Log, Kernel, Io, Allows, Carries, Carries-resume, Carries-recover, call-Carries,
  pure-Carries, get-Carries, modify-Carries, send_error-Carries, send_all_errors-Carries, call,
  pure, ◌>>◌, send_error, send_all_errors, Carries-if,
}
use garnd.Protocols.{Garnshared}
use garnd.Requests.{serve_client}
use garnd.SocketSet
use garnd.EnvironmentThread.{
  Handles, EnvThread, EpollEvent, Round, Flow, proceed, leave, is_empty, receive_listeners,
  add_listener, respond, pass_result, announce_env_close, report_error_and_close, serve, part,
  handle_event, handle_events, round, event_loop, sockets_of, shm_of,
}

-- The calls of the loop that neither watch, close nor pass on a descriptor.
abbrev pub is_notice : Call → Bool
is_notice (Call.eventfd_read _) = true
is_notice (Call.eventfd_write _) = true
is_notice (Call.send_error _) = true
is_notice (Call.send_response _) = true
is_notice (Call.send_close _) = true
is_notice (Call.epoll_wait _) = true
is_notice _ = false

module _ ⦃k : Kernel⦄ ⦃g : Garnshared⦄ (R : EnvThread → Log → Type 0)
    (allows : (c : Call) → is_notice c ≡ true → Allows R c)
    (queue_changes : (fds : List ℕ) (e : EnvThread) (t : Log)
      → R e t
      → R (record e { add_listener_rx = fds }) t)
    (receive_listeners-R : (fds : List ℕ) → Carries R (receive_listeners fds))
    (remove-R : (fd : ℕ) → Carries {E = ⊥} R (sockets_of (SocketSet.remove fd)))
    (serve_client-R : (fd : ℕ) → Carries R (shm_of (serve_client fd))) where
  call-R : (c : Call) → is_notice c ≡ true → Carries R (call c)
  call-R c notice = call-Carries R c (allows c notice)

  add_listener-R : (h : Handles) → Carries R (add_listener h)
  unfolding add_listener
  add_listener-R h =
      Carries-resume R _ _ (call-R (Call.eventfd_read h.add_listener_event) refl)
        (λ _. Carries-resume R _ _ (get-Carries R) (λ e. receive_listeners-R e.add_listener_rx))

  report-R : {E : Type 0} (e : DetailedError) → Carries {E = E} R (send_error e)
  report-R e = send_error-Carries R e (allows (Call.send_error e) refl)

  reports-R : {E : Type 0} (es : List DetailedError) → Carries {E = E} R (send_all_errors es)
  reports-R es = send_all_errors-Carries R es (λ e. allows (Call.send_error e) refl)

  pass_result-R :
      (m : Io EnvThread DetailedError (Unit {0})) → Carries R m → Carries R (pass_result m)
  unfolding pass_result respond
  pass_result-R m h =
      Carries-resume R _ _
        (Carries-recover R _ _ (Carries-resume R m _ h (λ _. pure-Carries R none))
          (λ e. pure-Carries R (some e)))
        (λ r.
          Carries-recover R _ _
            (Carries-resume R _ _ (call-R (Call.send_response r) refl) (λ _. pure-Carries R tt))
            report-R)

  announce-R : {E : Type 0} (h : Handles) → Carries {E = E} R (announce_env_close h)
  unfolding announce_env_close
  announce-R h =
      Carries-resume R _ _
        (Carries-recover R _ _
          (Carries-resume R _ _ (call-R (Call.send_close h.name) refl) (λ _. pure-Carries R []))
          (λ e. pure-Carries R _))
        (λ es.
          Carries-resume R _ _
            (Carries-recover R _ _
              (Carries-resume R _ _ (call-R (Call.eventfd_write h.close_env_event) refl)
                (λ _. pure-Carries R []))
              (λ e. pure-Carries R _))
            (λ fs. pure-Carries R _))

  pub report_error_and_close-Carries :
      {E : Type 0} (e : DetailedError) (h : Handles)
      → Carries {E = E} R (report_error_and_close e h)
  unfolding report_error_and_close
  report_error_and_close-Carries e h =
      Carries-resume R _ _
        (Carries-recover R _ _
          (Carries-resume R _ _ (call-R (Call.send_error e) refl) (λ _. pure-Carries R []))
          (λ e'. pure-Carries R _))
        (λ es. Carries-resume R _ _ (announce-R h) (λ fs. reports-R (es ++ fs)))

  part-R : (h : Handles) (fd : ℕ) → Carries R (part h fd)
  unfolding part
  part-R h fd = Carries-resume R _ _ (remove-R fd) (λ _. Carries-resume R _ _ (get-Carries R) (λ e.
      Carries-if R (is_empty e.sockets) _ _
        (Carries-resume R _ _ (announce-R h)
          (λ es. Carries-resume R _ _ (reports-R es) (λ _. pure-Carries R leave)))
        (pure-Carries R proceed)))

  flow-R :
      (flow : Flow) (m : Io EnvThread ⊥ Flow)
      → Carries R m
      → Carries R (elim flow as (λ _. Io EnvThread ⊥ Flow) [ proceed ↦ m | leave ↦ pure leave ])
  flow-R proceed m h = h
  flow-R leave m h = pure-Carries R leave

  serve-R : (fd : ℕ) → Carries R (serve fd)
  unfolding serve
  serve-R fd =
      Carries-resume R _ _ (Carries-recover R _ _ (serve_client-R fd) reports-R)
        (λ _. pure-Carries R proceed)

  handle_event-R : (h : Handles) (event : EpollEvent) → Carries R (handle_event h event)
  unfolding handle_event
  handle_event-R h event =
      Carries-if R (event.token == h.add_listener_event) _ _
        (Carries-resume R _ _ (pass_result-R (add_listener h) (add_listener-R h))
          (λ _. pure-Carries R proceed))
        (Carries-if R (event.token == h.drop_event) _ _
          (Carries-resume R _ _
            (Carries-recover R _ _
              (Carries-resume R _ _ (call-R (Call.eventfd_read h.drop_event) refl)
                (λ _. pure-Carries R tt))
              report-R)
            (λ _. pure-Carries R leave))
          (Carries-if R event.hung_up _ _ (part-R h _) (serve-R _)))

  handle_events-R : (h : Handles) (events : List EpollEvent) → Carries R (handle_events h events)
  unfolding handle_events
  handle_events-R h [] = pure-Carries R proceed
  handle_events-R h (event ∷ events) =
      Carries-resume R _ _ (handle_event-R h event)
        (λ flow. flow-R flow (handle_events h events) (handle_events-R h events))

  round-R : (h : Handles) (r : Round) → Carries R (round h r)
  unfolding round
  round-R h r =
      Carries-resume R _ _
        (modify-Carries R (λ e. record e { add_listener_rx = e.add_listener_rx ++ r.arrivals })
          (λ e t p. queue_changes (e.add_listener_rx ++ r.arrivals) e t p))
        (λ _. Carries-resume R _ _ (get-Carries R) (λ e.
          Carries-resume R _ _
            (Carries-recover R _ _
              (Carries-resume R _ _ (call-R (Call.epoll_wait (length e.sockets + 2)) refl)
                (λ _. pure-Carries R none))
              (λ e'. pure-Carries R (some e')))
            (λ waited. waited_on waited)))
    where
      waited_on :
          (waited : Option DetailedError)
          → Carries R (elim waited as (λ _. Io EnvThread ⊥ Flow) [
            | none ↦ handle_events h r.events
            | some e ↦ report_error_and_close e h >> pure leave
          ])
      waited_on none = handle_events-R h r.events
      waited_on (some e) =
          Carries-resume R _ _ (report_error_and_close-Carries e h) (λ _. pure-Carries R leave)

  pub event_loop-Carries : (h : Handles) (rs : List Round) → Carries R (event_loop h rs)
  unfolding event_loop
  event_loop-Carries h [] = pure-Carries R proceed
  event_loop-Carries h (r ∷ rs) =
      Carries-resume R _ _ (round-R h r)
        (λ flow. flow-R flow (event_loop h rs) (event_loop-Carries h rs))

-- ===== src/EnvironmentThread.antt =====
-- src/linux/environment_synchronization_thread.rs: the thread of one environment. Other threads act
-- between its rounds: what they have put into its channel since is part of a `Round`.
pub mod Alive
pub mod Announced
mod Carrying
pub mod Watched
pub mod Handshake
pub mod Leaving
pub mod Granted
pub mod Life
pub mod Lifetime
mod Tests
use garnd.Prelude.{
  ℕ, ◌+◌, ◌%◌, ◌^◌, inl, inr, Bool, true, false, Option, none, some, List, [], ◌∷◌, ◌++◌, String,
  ◌==◌, if◌then◌else◌, length,
}
use garnd.Errors.{DetailedError}
use garnd.Io.{
  ok, err, panic, within, finally, Call, Kernel, Io, pure, fail, panics, get, modify, or_else, call,
  ignore, zoom, send_error, send_all_errors, ◌>>=◌, ◌>>◌,
}
use garnd.Protocols.{Garnshared}
use garnd.Requests.{serve_client}
use garnd.Shm.{ShmAllocator, drop_allocator}
use garnd.Shm
use garnd.SocketSet
use garnd.SocketSet.{SocketSet}

-- The arguments of the thread that it never changes, by descriptor, and its epoll instance.
pub record Handles : Type 0 where
  pub name : String
  pub close_env_event : ℕ
  pub add_listener_event : ℕ
  pub drop_event : ℕ

-- `add_listener_rx` holds what has been sent to the thread and not yet received; `owner_alive` tells
-- whether its sender still exists.
pub record EnvThread : Type 0 where
  pub sockets : List ℕ
  pub shm : ShmAllocator
  pub add_listener_rx : List ℕ
  pub owner_alive : Bool

-- An epoll event: its data, and whether `EPOLLRDHUP` is set in it.
pub record EpollEvent : Type 0 where
  pub token : ℕ
  pub hung_up : Bool

-- What happens before and at one return of `epoll.wait`.
pub record Round : Type 0 where
  pub arrivals : List ℕ
  pub events : List EpollEvent

-- Whether the event loop goes on or is left.
pub data Flow : Type 0 where
  proceed leave : Flow

-- The thread's own code returns no error.
abbrev pub Thread : Type 0 → Type 0
Thread = Io EnvThread ⊥

abbrev is_empty : List ℕ → Bool
is_empty [] = true
is_empty (_ ∷ _) = false

abbrev pub sockets_of : {E A : Type 0} → Io SocketSet E A → Io EnvThread E A
sockets_of = zoom (λ e. e.sockets) (λ e ss. record e { sockets = ss })

abbrev pub shm_of : {E A : Type 0} → Io ShmAllocator E A → Io EnvThread E A
shm_of = zoom (λ e. e.shm) (λ e shm. record e { shm = shm })

module _ ⦃k : Kernel⦄ where
  -- `new_listener` is closed if it cannot be watched: nothing else owns it then.
  watch : ℕ → Io EnvThread DetailedError ℕ
  watch fd = or_else (call (Call.epoll_add fd)) (λ e. do ignore (Call.close fd); fail e)

  -- The loop over `try_recv`, on what the channel holds. When it is empty and its sender is gone,
  -- the thread panics.
  pub receive_listeners : List ℕ → Io EnvThread DetailedError (Unit {0})
  receive_listeners [] = do e ← get; if e.owner_alive then pure tt else panics
  receive_listeners (fd ∷ fds) = do
    modify (λ e. record e { add_listener_rx = fds })
    watch fd
    modify (λ e. record e { sockets = SocketSet.insert fd e.sockets })
    receive_listeners fds

  pub add_listener : Handles → Io EnvThread DetailedError (Unit {0})
  add_listener h = do
    call (Call.eventfd_read h.add_listener_event)
    e ← get
    receive_listeners e.add_listener_rx

  -- `let _ = response_tx.send(..).add_metadata().map_err(|e| send_error!(..))`
  respond : Option DetailedError → Thread (Unit {0})
  respond r = or_else (do call (Call.send_response r); pure tt) send_error

  -- `pass_result_to_requesting_thread!`
  pass_result : Io EnvThread DetailedError (Unit {0}) → Thread (Unit {0})
  pass_result m = do r ← or_else (m >> pure none) (λ e. pure (some e)); respond r

  -- The name is sent first, then the event is raised; the errors of both are kept.
  pub announce_env_close : {S E : Type 0} → Handles → Io S E (List DetailedError)
  announce_env_close h = do
    es ← or_else (call (Call.send_close h.name) >> pure []) (λ e. pure (e ∷ []))
    fs ← or_else (call (Call.eventfd_write h.close_env_event) >> pure []) (λ e. pure (e ∷ []))
    pure (es ++ fs)

  pub report_error_and_close : {S E : Type 0} → DetailedError → Handles → Io S E (Unit {0})
  report_error_and_close e h = do
    es ← or_else (call (Call.send_error e) >> pure []) (λ e'. pure (e' ∷ []))
    fs ← announce_env_close h
    send_all_errors (es ++ fs)

  module _ ⦃g : Garnshared⦄ where
    -- A request of a client: all its errors are sent on, and the loop goes on.
    serve : ℕ → Thread Flow
    serve fd = do or_else (shm_of (serve_client fd)) send_all_errors; pure proceed

    -- A client has closed its connection. Without clients the environment is closed.
    part : Handles → ℕ → Thread Flow
    part h fd = do
      sockets_of (SocketSet.remove fd)
      e ← get
      if is_empty e.sockets
          then (do es ← announce_env_close h; send_all_errors es; pure leave)
          else pure proceed

    -- `event.data() as RawFd` keeps the low 32 bits.
    pub handle_event : Handles → EpollEvent → Thread Flow
    handle_event h event =
        if event.token == h.add_listener_event
        then (do pass_result (add_listener h); pure proceed)
        else if event.token == h.drop_event
        then (do or_else (call (Call.eventfd_read h.drop_event) >> pure tt) send_error; pure leave)
        else if event.hung_up
        then part h (event.token % 2 ^ 32)
        else serve (event.token % 2 ^ 32)

    pub handle_events : Handles → List EpollEvent → Thread Flow
    handle_events h [] = pure proceed
    handle_events h (event ∷ events) = do
      flow ← handle_event h event
      elim flow [ proceed ↦ handle_events h events | leave ↦ pure leave ]

    pub round : Handles → Round → Thread Flow
    round h r = do
      modify (λ e. record e { add_listener_rx = e.add_listener_rx ++ r.arrivals })
      e ← get
      waited ←
          or_else (call (Call.epoll_wait (length e.sockets + 2)) >> pure none) (λ e. pure (some e))
      elim waited [
        | none ↦ handle_events h r.events
        | some e ↦ do report_error_and_close e h; pure leave
      ]

    -- The event loop: `proceed` at the end means that the thread waits for the next event.
    pub event_loop : Handles → List Round → Thread Flow
    event_loop h [] = pure proceed
    event_loop h (r ∷ rs) = do
      flow ← round h r
      elim flow [ proceed ↦ event_loop h rs | leave ↦ pure leave ]

    -- The epoll instance watches the two events of the thread before the loop begins.
    watch_events : Handles → Io EnvThread DetailedError (Unit {0})
    watch_events h = do
      call (Call.epoll_add h.add_listener_event)
      call (Call.epoll_add h.drop_event)
      pure tt

    -- The locals are dropped in the order opposite to their declaration.
    drop_locals : Bool → ℕ → Thread (Unit {0})
    drop_locals unwinding epoll =
        finally (ignore (Call.close epoll) >> shm_of (drop_allocator unwinding))
          (sockets_of SocketSet.drop_sockets)

    -- A body that is left, by a return or a panic, drops the locals; one that waits keeps them.
    pub scoped : ℕ → Thread Flow → Thread Flow
    scoped epoll m s t =
        let (o, s', t') = m s t in
        elim o [
          | ok proceed ↦ (ok proceed, s', t')
          | ok leave ↦ (drop_locals false epoll >> pure leave) s' t'
          | err e ↦ absurd e
          | panic ↦ let (_, s₂, t₂) = drop_locals true epoll s' t' in (panic, s₂, t₂)
        ]

    pub loop_with_epoll : Handles → List Round → ℕ → Thread Flow
    loop_with_epoll h rs epoll = do
      failed ← or_else (watch_events h >> pure none) (λ e. pure (some e))
      elim failed [ none ↦ event_loop h rs | some e ↦ do report_error_and_close e h; pure leave ]

    -- The thread from the moment that it has its allocator.
    with_allocator : Handles → List Round → Thread Flow
    with_allocator h rs = do
      made ← or_else (call Call.epoll_create >>= λ fd. pure (inl fd)) (λ e. pure (inr e))
      elim made [
        | inl epoll ↦ scoped epoll (loop_with_epoll h rs epoll)
        | inr e ↦ do
          report_error_and_close e h
          finally (shm_of (drop_allocator false)) (sockets_of SocketSet.drop_sockets)
          pure leave
      ]

    -- `environment_synchronization_thread_main`, up to the round that it waits for.
    pub thread_main : {S : Type 0} → Handles → Bool → List Round → Io S ⊥ Flow
    thread_main h owner_alive rs = do
      made ← or_else (Shm.new >>= λ shm. pure (inl shm)) (λ e. pure (inr e))
      elim made [
        | inl shm ↦
            within
              (record { sockets = []; shm = shm; add_listener_rx = []; owner_alive = owner_alive })
              (with_allocator h rs)
        | inr e ↦ do report_error_and_close e h; pure leave
      ]

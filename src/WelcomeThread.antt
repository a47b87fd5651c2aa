-- ===== src/WelcomeThread.antt =====
-- src/linux/welcome_thread.rs: the thread that accepts clients and owns the environments. The
-- environments' threads act between its rounds: the names that they have sent into the close channel
-- are part of a `Round`. The channel's sender is a local of the thread, so it is never disconnected.
pub mod Balance
pub mod Broken
pub mod Life
pub mod Threads
pub mod Joining
pub mod Opening
pub mod Root
mod Tests
use garnd.Prelude.{
  ℕ, Bool, true, false, not, ◌||◌, Option, none, some, List, [], ◌∷◌, ◌++◌, String, ◌==◌,
  if◌then◌else◌, Dict, lookup, insert, remove,
}
use garnd.Errors.{
  DetailedError, runtime, welcome_socket_failed, shutdown_signal, reload_request,
  ignored_root_request,
}
use garnd.Io.{
  Call, Kernel, Io, ok, pure, fail, panics, get, put, modify, unwrap, or_else, call, ignore,
  convert, finally, within, send_error, send_all_errors, ◌>>=◌, ◌>>◌,
}
use garnd.Protocols.{
  Garnshared, WelcomeRequest, open_environment, open_environment_ok, unwrap_or_report_failure,
  parse_request,
}
use garnd.Environment
use garnd.Environment.{Environment, insert_socket, drop_environment}

pub record WelcomeThread : Type 0 where
  pub environments : Dict Environment
  pub close_env_rx : List String

-- The flags that `poll` returns for a descriptor: whether `POLLIN` is set, and whether any other is.
pub record PollFlags : Type 0 where
  pub input : Bool
  pub other : Bool

-- What happens before and at one return of `poll`. A flag that nix does not know gives `none`.
pub record Round : Type 0 where
  pub closing : List String
  pub shutdown : Option PollFlags
  pub reload : Option PollFlags
  pub close_env : Option PollFlags
  pub welcome : Option PollFlags

-- The descriptors that the thread watches.
pub record Sources : Type 0 where
  pub shutdown_event : ℕ
  pub reload_event : ℕ
  pub close_env_event : ℕ
  pub welcome_socket : ℕ

pub data Flow : Type 0 where
  proceed leave : Flow

abbrev pub Welcome : Type 0 → Type 0
Welcome = Io WelcomeThread ⊥

abbrev pub Request : Type 0 → Type 0
Request = Io WelcomeThread (List DetailedError)

-- `.any().unwrap_or_default()`
unfoldable pub any : Option PollFlags → Bool
any none = false
any (some f) = f.input || f.other

module _ ⦃k : Kernel⦄ where
  -- `environments.remove(&name)`: the environment that was there is dropped.
  pub close_environment : String → Welcome (Unit {0})
  close_environment name = do
    w ← get
    put (record w { environments = remove name w.environments })
    elim (lookup name w.environments) [ none ↦ pure tt | some env ↦ drop_environment false env ]

  -- The loop over `try_recv`, on what the channel holds.
  pub close_environments : List String → Welcome (Unit {0})
  close_environments [] = pure tt
  close_environments (name ∷ names) = do
    modify (λ w. record w { close_env_rx = names })
    close_environment name
    close_environments names

  -- An event is read; an error of the read is sent on.
  pub acknowledge : ℕ → Welcome (Unit {0})
  acknowledge fd = or_else (do call (Call.eventfd_read fd); pure tt) send_error

  pub environment_shutdown : Sources → Option PollFlags → Welcome (Unit {0})
  environment_shutdown src flags =
      if any flags
      then (do acknowledge src.close_env_event; w ← get; close_environments w.close_env_rx)
      else pure tt

  module _ ⦃g : Garnshared⦄ where
    or_report : {A : Type 0} → Io WelcomeThread DetailedError A → ℕ → Request A
    or_report = unwrap_or_report_failure g.welcome

    -- The client's socket is closed where its request is not handed on.
    pub checked_request : ℕ → Request WelcomeRequest
    checked_request fd = do
      uid ← or_else (call (Call.peer_uid fd)) (λ e. fail (e ∷ []))
      if uid == 0 then fail (ignored_root_request ∷ []) else pure tt
      or_else (call (Call.recv fd g.welcome.max_size)) (λ e. fail (e ∷ []))
      buffer ← λ s t. (ok (k.buffer t), s, t)
      parse_request g.welcome fd buffer

    pub receive_and_parse_request : ℕ → Request (ℕ × WelcomeRequest)
    receive_and_parse_request welcome_socket = do
      fd ← or_else (call (Call.accept welcome_socket)) (λ e. fail (e ∷ []))
      r ← or_else (checked_request fd) (λ es. do ignore (Call.close fd); fail es)
      pure (fd, r)

    -- `Entry::Vacant`: the environment is kept once its thread has taken the socket.
    pub vacant : String → (client passed : ℕ) → Request (Unit {0})
    vacant name client passed = do
      env ←
          or_else (or_report (Environment.new name) client)
            (λ es. do ignore (Call.close passed); fail es)
      or_else (or_report (insert_socket env passed) client)
          (λ es. do drop_environment false env; fail es)
      modify (λ w. record w { environments = insert name env w.environments })

    pub entry : String → (client passed : ℕ) → Option Environment → Request (Unit {0})
    entry name client passed none = vacant name client passed
    entry name client passed (some env) = or_report (insert_socket env passed) client

    pub open_for : String → ℕ → Request (Unit {0})
    open_for name client = do
      passed ← or_report (call (Call.dup client)) client
      w ← get
      entry name client passed (lookup name w.environments)
      response ← or_report (convert (g.welcome.serialize open_environment_ok)) client
      or_else (call (Call.send client response)) (λ e. fail (e ∷ []))
      pure tt

    -- The client's own socket is closed at the end; the environment has a duplicate.
    pub handle_open_environment : String → ℕ → Request (Unit {0})
    handle_open_environment name client =
        finally (open_for name client) (ignore (Call.close client))

    pub handle_request : ℕ × WelcomeRequest → Request (Unit {0})
    handle_request (client, open_environment name) = handle_open_environment name client

    pub serve : Sources → Welcome (Unit {0})
    serve src =
        or_else (receive_and_parse_request src.welcome_socket >>= handle_request) send_all_errors

    -- The end of a round: a broken socket is reported with a shutdown signal, and the loop goes on.
    pub welcome_event : Sources → Option PollFlags → Welcome (Unit {0})
    welcome_event src flags =
        if any flags
        then (do
          f ← unwrap flags
          if f.input
              then serve src
              else (do send_error (runtime welcome_socket_failed); send_error shutdown_signal))
        else pure tt

    pub signal : ℕ → DetailedError → Welcome Flow
    signal fd e = do acknowledge fd; send_error e; pure leave

    pub polled : Sources → Round → Welcome Flow
    polled src r =
        if any r.shutdown
        then signal src.shutdown_event shutdown_signal
        else if any r.reload
        then signal src.reload_event reload_request
        else (do environment_shutdown src r.close_env; welcome_event src r.welcome; pure proceed)

    pub give_up : {S : Type 0} → DetailedError → Io S ⊥ Flow
    give_up e = do send_error e; send_error reload_request; pure leave

    pub round : Sources → Round → Welcome Flow
    round src r = do
      modify (λ w. record w { close_env_rx = w.close_env_rx ++ r.closing })
      failed ← or_else (call Call.poll >> pure none) (λ e. pure (some e))
      elim failed [ none ↦ polled src r | some e ↦ give_up e ]

    -- `proceed` at the end means that the thread waits for the next event.
    pub event_loop : Sources → List Round → Welcome Flow
    event_loop src [] = pure proceed
    event_loop src (r ∷ rs) = do
      flow ← round src r
      elim flow [ proceed ↦ event_loop src rs | leave ↦ pure leave ]

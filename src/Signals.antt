-- ===== src/Signals.antt =====
-- src/linux/runtime.rs: `setup_socket`, `setup_events` and the signal handlers. The two static
-- atomics are a record; -1 is `none`.
pub mod Delivered
pub mod Descriptors
pub mod Forward
pub mod Interrupt
mod Tests
use garnd.Prelude.{ℕ, Bool, true, false, Option, none, some, [], ◌∷◌, ◌==◌, if◌then◌else◌}
use garnd.Errors.{DetailedError, runtime, service_already_running, system}
use garnd.Io.{
  Call, Handler, termination_signal_handler, reload_signal_handler, Log, done, Reply, Kernel, Io,
  pure, fail, get, put, modify, or_else, call, ignore, convert, ◌>>=◌, ◌>>◌,
}

pub record Statics : Type 0 where
  pub shutdown_event_for_signal : Option ℕ
  pub reload_event_for_signal : Option ℕ

-- Linux' numbers of the signals, and of the error for an address that is taken.
abbrev pub sighup : ℕ
sighup = 1

abbrev pub sigint : ℕ
sigint = 2

abbrev pub sigterm : ℕ
sigterm = 15

abbrev eaddrinuse : ℕ
eaddrinuse = 98

bind_error : DetailedError → DetailedError
bind_error (system n) = if n == eaddrinuse then runtime service_already_running else system n
bind_error e = e

pub handler_of : ℕ → Log → Option Handler
handler_of signal [] = none
handler_of signal ((Call.sigaction s handler, done _) ∷ t) =
    if s == signal then some handler else handler_of signal t
handler_of signal (_ ∷ t) = handler_of signal t

module _ ⦃k : Kernel⦄ where
  -- The socket is closed if a step fails. `address` is what `UnixAddr::new_abstract` says of the name.
  pub setup_socket : {S : Type 0} → Reply ℕ → Io S DetailedError ℕ
  setup_socket address = do
    welcome_socket ← call Call.socket
    or_else
        (do
          call (Call.set_pass_cred welcome_socket)
          convert address
          or_else (call (Call.bind_welcome welcome_socket)) (λ e. fail (bind_error e)))
        (λ e. do ignore (Call.close welcome_socket); fail e)
    pure welcome_socket

  -- `compare_exchange` with -1: the event of an earlier start is taken, and the new one closed.
  adopt_shutdown_event : ℕ → Option ℕ → Io Statics DetailedError ℕ
  adopt_shutdown_event new none = do
    modify (λ st. record st { shutdown_event_for_signal = some new })
    pure new
  adopt_shutdown_event new (some raw_fd) = do ignore (Call.close new); pure raw_fd

  adopt_reload_event : ℕ → Option ℕ → Io Statics DetailedError ℕ
  adopt_reload_event new none = do
    modify (λ st. record st { reload_event_for_signal = some new })
    pure new
  adopt_reload_event new (some raw_fd) = do ignore (Call.close new); pure raw_fd

  -- Both events are leaked once they are adopted, also where a handler cannot be set.
  pub setup_events : Io Statics DetailedError (ℕ × ℕ)
  setup_events = do
    new_shutdown_event ← call Call.eventfd_new
    new_reload_event ←
        or_else (call Call.eventfd_new) (λ e. do ignore (Call.close new_shutdown_event); fail e)
    st ← get
    shutdown_event ← adopt_shutdown_event new_shutdown_event st.shutdown_event_for_signal
    reload_event ← adopt_reload_event new_reload_event st.reload_event_for_signal
    call (Call.sigaction sigterm termination_signal_handler)
    call (Call.sigaction sigint termination_signal_handler)
    call (Call.sigaction sighup reload_signal_handler)
    pure (shutdown_event, reload_event)

  -- The handler returns whether the process goes on; `false` is `_exit`.
  termination_or_reload_handler : {E : Type 0} → Bool → Io Statics E Bool
  termination_or_reload_handler true = do
    st ← get
    elim st.reload_event_for_signal [
      | none ↦ do ignore Call.report_brittle; pure true
      | some fd ↦ do ignore (Call.eventfd_write fd); pure true
    ]
  termination_or_reload_handler false = do
    st ← get
    elim st.shutdown_event_for_signal [
      | none ↦ do ignore Call.report_brittle; pure false
      | some fd ↦ do ignore (Call.eventfd_write fd); pure true
    ]

  pub run_handler : {E : Type 0} → Handler → Io Statics E Bool
  run_handler termination_signal_handler = termination_or_reload_handler false
  run_handler reload_signal_handler = termination_or_reload_handler true

  -- What a signal does: without a handler it ends the process.
  by_handler : {E : Type 0} → Option Handler → Io Statics E Bool
  by_handler none = pure false
  by_handler (some handler) = run_handler handler

  -- The handler is the one that the last successful `sigaction` for the signal has set.
  pub on_signal : {E : Type 0} → ℕ → Io Statics E Bool
  on_signal signal st t = by_handler (handler_of signal t) st t

-- ===== src/Runtime.antt =====
-- src/linux/runtime.rs: the runtime in its three states, and what leads from one to the next. A method
-- that takes `self` consumes the state that it starts from. The runtime's `error_tx` is one of the
-- senders of the error channel: while a runtime lives, main's receiver never sees the channel closed.
pub mod Notified
pub mod Started
use garnd.Prelude.{ℕ, Bool, Option, none, some, String}
use garnd.Errors.{DetailedError}
use garnd.Io.{Call, Reply, Kernel, Io, pure, fail, or_else, call, ignore, zoom, ◌>>=◌, ◌>>◌}
use garnd.Environment.{join}
use garnd.Privileges.{Credentials, check_privileges}
use garnd.Signals.{Statics, setup_socket, setup_events}

pub record Runtime (S : Type 0) : Type 0 where
  pub working_dir_path : String
  pub state_data : S

pub data Uninit : Type 0 where
  uninit : Uninit

pub record Ready : Type 0 where
  pub welcome_socket : ℕ
  pub shutdown_event : ℕ
  pub reload_event : ℕ

pub record Listening : Type 0 where
  pub welcome_thread : ℕ

-- `default_working_dir` is `garnshared::constants::WORKING_DIR`.
pub new : (default_working_dir : String) → Option String → Runtime Uninit
new default_working_dir none = record {
  working_dir_path = default_working_dir;
  state_data = uninit;
}
new default_working_dir (some name) = record { working_dir_path = name; state_data = uninit }

module _ ⦃k : Kernel⦄ where
  -- systemd's `notify`, by the status that it is given.
  notify : {S : Type 0} → String → Io S DetailedError (Unit {0})
  notify status = do call (Call.notify status); pure tt

  pub notify_system_starting : {S : Type 0} → Runtime Uninit → Io S DetailedError (Unit {0})
  notify_system_starting r = notify "Starting service..."

  -- The system's answers are arguments: what `check_privileges` asks, and the socket's address.
  pub init :
      (debug_assertions : Bool)
      → Credentials
      → Reply ℕ
      → Runtime Uninit
      → Io Statics DetailedError (Runtime Ready)
  init debug_assertions credentials address r = do
    check_privileges debug_assertions credentials
    welcome_socket ← setup_socket address
    (shutdown_event, reload_event) ←
        or_else setup_events (λ e. do ignore (Call.close welcome_socket); fail e)
    pure (record {
      working_dir_path = r.working_dir_path;
      state_data = record {
        welcome_socket = welcome_socket;
        shutdown_event = shutdown_event;
        reload_event = reload_event;
      };
    })

  -- The thread owns the socket; if there is no thread, the socket closes with the closure.
  pub listen : {S : Type 0} → Runtime Ready → Io S DetailedError (Runtime Listening)
  listen r = do
    let ready = r.state_data
    thread ←
        or_else
          (call (
            Call.spawn_welcome_thread ready.welcome_socket ready.shutdown_event ready.reload_event))
          (λ e. do ignore (Call.close ready.welcome_socket); fail e)
    pure (record {
      working_dir_path = r.working_dir_path;
      state_data = record { welcome_thread = thread };
    })

  pub notify_system_listening : {S : Type 0} → Runtime Listening → Io S DetailedError (Unit {0})
  notify_system_listening r = notify "Listening..."

  pub notify_system_reloading : {S : Type 0} → Runtime Listening → Io S DetailedError (Unit {0})
  notify_system_reloading r = notify "Reloading service..."

  pub notify_system_stopping : {S : Type 0} → Runtime Listening → Io S DetailedError (Unit {0})
  notify_system_stopping r = notify "Stopping service..."

  -- The drop of a listening runtime is that of its `JoinGuard`.
  pub drop_runtime : {S E : Type 0} → Bool → Runtime Listening → Io S E (Unit {0})
  drop_runtime unwinding r = join unwinding r.state_data.welcome_thread

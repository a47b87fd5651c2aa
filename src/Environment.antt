-- ===== src/Environment.antt =====
-- src/linux/environment.rs and src/join_guard.rs: the handle by which the welcome thread owns an
-- environment. The two channels of an environment are named by its thread.
pub mod Accepted
pub mod Descriptors
pub mod Handover
pub mod Threads
use garnd.Prelude.{ℕ, Bool, true, false, String, ◌==◌, if◌then◌else◌}
use garnd.Errors.{DetailedError, system}
use garnd.Io.{Call, Kernel, Io, pure, fail, panics, or_else, call, ignore, finally, ◌>>=◌, ◌>>◌}

pub record Environment : Type 0 where
  pub add_listener_event : ℕ
  pub drop_event : ℕ
  pub thread : ℕ

module _ ⦃k : Kernel⦄ where
  -- `Environment::new`. Where a step fails the events that exist are closed. Later they are shared
  -- with the thread, and close with the last of the two that holds them.
  pub new : {S : Type 0} → String → Io S DetailedError Environment
  new name = do
    add_listener_event ← call Call.eventfd_new
    drop_event ←
        or_else (call Call.eventfd_new) (λ e. do ignore (Call.close add_listener_event); fail e)
    thread ←
        or_else (call (Call.spawn_thread name add_listener_event drop_event))
          (λ e. do ignore (Call.close drop_event); ignore (Call.close add_listener_event); fail e)
    pure (record {
      add_listener_event = add_listener_event;
      drop_event = drop_event;
      thread = thread;
    })

  -- The socket goes to the thread, which is woken and whose answer is awaited: 0 is `Ok(())`, any
  -- other number its error. A socket that cannot be sent lives on in the error.
  pub insert_socket : {S : Type 0} → Environment → ℕ → Io S DetailedError (Unit {0})
  insert_socket env fd = do
    call (Call.send_listener env.thread fd)
    call (Call.eventfd_write env.add_listener_event)
    answer ← call (Call.recv_response env.thread)
    if answer == 0 then pure tt else fail (system answer)

  -- An error in a destructor: a panic, or a note on stderr if the thread is panicking already.
  destructor_failed : {S E : Type 0} → Bool → Io S E (Unit {0})
  destructor_failed unwinding = if unwinding then ignore Call.report_brittle else panics

  -- `Drop for JoinGuard`
  pub join : {S E : Type 0} → Bool → ℕ → Io S E (Unit {0})
  join unwinding thread =
      or_else (do call (Call.join_thread thread); pure tt) (λ _. destructor_failed unwinding)

  -- `Drop for Environment`: the thread is told to end. The fields are dropped in any case, and with
  -- them the thread is joined, after a panic by a thread that unwinds.
  pub drop_environment : {S E : Type 0} → Bool → Environment → Io S E (Unit {0})
  drop_environment unwinding env = do
    told ← or_else (call (Call.eventfd_write env.drop_event) >> pure true) (λ _. pure false)
    if told
        then join unwinding env.thread
        else finally (destructor_failed unwinding) (join true env.thread)

-- ===== src/Lib.antt =====
-- garnd, the daemon that hands out shared mutexes to processes. Clients connect to a welcome socket
-- and name an environment; the welcome thread starts one thread for each environment and passes the
-- connection on to it; that thread creates mutexes in shared memory and hands the pages out.
--
-- Files and what they model (paths from the repository's root):
--   Errors               src/linux/runtime_error.rs (the enum), src/shutdown_signal.rs
--   Constants            src/constants.rs
--   Messages             the texts that these errors print
--   EnvVars              src/util.rs (`get_optional_env_var`) and src/early_failure.rs
--   Io                   the calls that leave the repository, and src/util.rs (`send_error!`)
--   Shm                  src/linux/shm_allocator.rs
--   CircuitBreaker       src/linux/circuit_breaker.rs
--   Protocols            the interface of garnshared that the code uses, src/linux/util.rs
--                        (`unwrap_or_report_failure!`)
--   Requests             src/linux/environment_synchronization_thread.rs: one request of a client
--   Requests/Session     the requests of all clients of an environment, as the steps of a relation
--   Requests/Registry    the abstract view of an environment: each name's location
--   SocketSet, EnvironmentThread   the same file: the socket set and the event loop
--   EnvironmentThread/Watched   which descriptors that thread watches, and that it closes them all
--   Environment          src/linux/environment.rs and src/join_guard.rs
--   Environment/Accepted   `insert_socket` joined with the thread that answers it
--   WelcomeThread        src/linux/welcome_thread.rs: the event loop and the requests
--   WelcomeThread/Life   the same file: the thread's start, and the drop of its locals
--   Privileges           src/linux/runtime.rs: `check_privileges`
--   Signals              the same file: the welcome socket, the two events and the signal handlers
--   Signals/Interrupt    the signal handler again, and `error_in_brittle_scenario` of src/linux/util.rs,
--                        by the bytes that they write and by `errno`
--   Runtime              src/linux/runtime.rs: the three states of a `Runtime` and what leads from one to the next
--   Main                 src/main.rs, src/linux/logger.rs
--
-- State and operations. A Rust method that changes `self` is an `Io` over a record with the fields of
-- the struct: it takes the record and the log of all calls so far and returns an outcome (a value, an
-- error or a panic), the new record and the new log. What the operating system, the standard
-- library's channels and threads, and garnshared answer is a parameter: `Kernel` answers every call
-- from the log before it, `Protocol` reads and writes the wire format. No law is assumed of either,
-- but where a theorem names it. `DetailedError` is modelled by the error that it wraps.
--
-- Loops run over lists: the events of an `epoll.wait`, the content of a channel, the rounds of an
-- event loop. There is no fuel: an event loop that has used up its rounds waits for the next event.
-- A `usize` or `i64` sum that the code may wrap is taken modulo 2 ^ 64.
--
-- The daemon's threads are modelled one by one, each with a log of its own calls; what one thread gets
-- from another (an error, a name, an event) is an argument or an answer. main's own calls take no
-- part of another thread's log, but where a theorem says that what one thread sent is what the other
-- receives.
--
-- What a signal does is left to the system: `handler_of` takes the handler that the last successful
-- `sigaction` for it has set from the log, and without one the signal ends the process.
--
-- Not modelled: src/linux.rs, which only declares modules, and how the standard library prints a
-- number and garnshared an error that it has wrapped.
pub mod Prelude
pub mod Errors
pub mod Constants
pub mod Messages
pub mod Io
pub mod EnvVars
pub mod Shm
pub mod CircuitBreaker
pub mod Protocols
pub mod Requests
pub mod SocketSet
pub mod EnvironmentThread
pub mod Environment
pub mod WelcomeThread
pub mod Privileges
pub mod Signals
pub mod Runtime
pub mod Main

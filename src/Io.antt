-- ===== src/Io.antt =====
-- How the code talks to the operating system. Every call that leaves the repository is a `Call`;
-- the `Kernel` answers it from the log of all calls before, so it may be any system at all. A
-- function of the program is an `Io`: it works on its thread's state and the log, newest call first,
-- and returns, fails with an error or panics. What it had done when it failed stays done.
mod Calls
mod Monad
mod Reports
mod Rules
mod Answered
mod Open
mod History
mod Growing
mod Keeping
mod Carrying
pub mod Samples
pub use Calls.{
  Call, Handler, termination_signal_handler, reload_signal_handler, Reply, done, failed, Log,
  Kernel,
}
pub use Monad.*
unfoldable pub use Reports.*
pub use Rules.*
pub use Answered.*
pub use Open.*
pub use History.*
pub use Growing.*
pub use Keeping.*
pub use Carrying.*

-- ===== src/Main.antt =====
-- src/main.rs. A turn of the outer loop is a `Life`: what the system answers and which errors arrive.
-- While main waits in `recv` the runtime is alive and holds a sender, so `recv` never fails.
pub mod Accounted
pub mod Course
pub mod Finishing
pub mod Serving
pub mod Signalled
pub mod StartUp
mod Tests
pub mod Turn
pub mod Awaited
use garnd.Prelude.{ℕ, Bool, true, false, Option, none, some, List, [], ◌∷◌, String, ◌⊎◌, inl, inr}
use garnd.Errors.{DetailedError, shutdown_signal, reload_request}
use garnd.Constants.{exit_code_success, exit_code_failure, working_dir_env_option}
use garnd.EnvVars.{EnvVar, get_optional_env_var}
use garnd.Io.{
  Call, Reply, Kernel, Io, ok, err, panic, pure, panics, get, put, or_else, call, ignore, zoom,
  ◌>>=◌, ◌>>◌,
}
use garnd.CircuitBreaker.{Breaker, TimeSpec, Verdict, instant_exit, reload, circuit_breaker}
use garnd.Privileges.{Credentials}
use garnd.Signals.{Statics}
use garnd.Runtime
use garnd.Runtime.{
  Runtime, Listening, init, listen, notify_system_starting, notify_system_listening,
  notify_system_reloading, notify_system_stopping, drop_runtime,
}

-- The statics of the process, which outlive a turn.
pub record Globals : Type 0 where
  pub events : Statics
  pub breaker : Breaker

pub record Life : Type 0 where
  pub debug_assertions : Bool
  pub default_working_dir : String
  pub working_dir_var : EnvVar
  pub credentials : Credentials
  pub address : Reply ℕ
  -- the errors that `recv` returns in turn, and those found after the runtime's end
  pub received : List DetailedError
  pub late : List DetailedError
  -- the clock, when the circuit breaker reads it
  pub clock : Option TimeSpec

pub data Kind : Type 0 where
  shutdown reload_wish other : Kind

-- `err.error().is::<ShutdownSignal>()` and `is::<ReloadRequest>()`
pub kind : DetailedError → Kind
kind shutdown_signal = shutdown
kind reload_request = reload_wish
kind e = other

-- How the inner loop ends: with a signal, with the process, or not yet.
pub data Received : Type 0 where
  stopping reloading killed waiting : Received

-- How a turn ends.
pub data Next : Type 0 where
  exits : ℕ → Next
  restarts killed waiting : Next

abbrev pub Main : Type 0 → Type 0
Main = Io Globals ⊥

abbrev statics_of : {E A : Type 0} → Io Statics E A → Io Globals E A
statics_of = zoom (λ g. g.events) (λ g events. record g { events = events })

module _ ⦃k : Kernel⦄ where
  -- `Logger::log`: `eprintln!` panics if stderr cannot be written.
  pub log : {S : Type 0} → DetailedError → Io S ⊥ (Unit {0})
  log e = or_else (do call (Call.log e); pure tt) (λ _. panics)

  pub log_all : {S : Type 0} → List DetailedError → Io S ⊥ (Unit {0})
  log_all [] = pure tt
  log_all (e ∷ es) = do log e; log_all es

  -- An error that is logged, after which main goes on.
  logging : {S : Type 0} → Io S DetailedError (Unit {0}) → Io S ⊥ (Unit {0})
  logging m = or_else m log

  -- `circuit_breaker()`: whether the process lives on.
  obey : Globals → Verdict → Main Bool
  obey g instant_exit = do ignore Call.kill_self; pure false
  obey g (reload breaker) = do put (record g { breaker = breaker }); pure true

  break_circuit : Option TimeSpec → Main Bool
  break_circuit clock = do g ← get; obey g (circuit_breaker g.breaker clock)

  -- One turn of the inner loop, for an error that is a signal.
  stop : Runtime Listening → DetailedError → Main Received
  stop r e = do logging (notify_system_stopping r); log e; pure stopping

  live_on : Runtime Listening → DetailedError → Bool → Main Received
  live_on r e true = do logging (notify_system_reloading r); log e; pure reloading
  live_on r e false = pure killed

  restart : Runtime Listening → Option TimeSpec → DetailedError → Main Received
  restart r clock e = do lives ← break_circuit clock; live_on r e lives

  -- The body of the inner loop, by the kind of the error; `rest` is what comes after it.
  handle :
      Runtime Listening → Option TimeSpec → DetailedError → Main Received → Kind → Main Received
  handle r clock e rest shutdown = stop r e
  handle r clock e rest reload_wish = restart r clock e
  handle r clock e rest other = do log e; rest

  pub receive : Runtime Listening → Option TimeSpec → List DetailedError → Main Received
  receive r clock [] = pure waiting
  receive r clock (e ∷ es) = handle r clock e (receive r clock es) (kind e)

  -- A runtime is dropped where it goes out of scope, and where a panic unwinds.
  pub with_runtime : {A : Type 0} → Runtime Listening → Main A → (A → Main Next) → Main Next
  with_runtime r m f s t =
      let (o, s', t') = m s t in
      elim o [
        | ok a ↦ f a s' t'
        | err e ↦ absurd e
        | panic ↦ let (_, s₂, t₂) = drop_runtime {E = ⊥} true r s' t' in (panic, s₂, t₂)
      ]

  -- What follows the inner loop.
  pub finish : Runtime Listening → List DetailedError → Received → Main Next
  finish r late stopping = do drop_runtime false r; log_all late; pure (exits exit_code_success)
  finish r late reloading = do drop_runtime false r; log_all late; pure restarts
  finish r late killed = pure killed
  finish r late waiting = pure waiting

  -- A runtime that listens. If systemd could not be told so, main returns, which drops the runtime.
  announced : Runtime Listening → Life → Option DetailedError → Main Next
  announced r life none = with_runtime r (receive r life.clock life.received) (finish r life.late)
  announced r life (some e) =
      with_runtime r (log e) (λ _. do drop_runtime false r; pure (exits exit_code_failure))

  listened : Runtime Listening → Life → Main Next
  listened r life = do
    failed ← or_else (notify_system_listening r >> pure none) (λ e. pure (some e))
    announced r life failed

  -- The three steps whose errors main treats alike.
  pub start_up : Life → Option String → Io Globals DetailedError (Runtime Listening)
  start_up life working_dir = do
    let runtime = Runtime.new life.default_working_dir working_dir
    notify_system_starting runtime
    ready ← statics_of (init life.debug_assertions life.credentials life.address runtime)
    listen ready

  entered : Life → Runtime Listening ⊎ DetailedError → Main Next
  entered life (inl r) = listened r life
  entered life (inr e) = do log e; pure (exits exit_code_failure)

  pub with_working_dir : Life → Option String ⊎ ℕ → Main Next
  with_working_dir life (inl working_dir) = do
    started ← or_else (start_up life working_dir >>= λ r. pure (inl r)) (λ e. pure (inr e))
    entered life started
  with_working_dir life (inr code) = pure (exits code)

  pub turn : Life → Main Next
  turn life = do
    working_dir ← get_optional_env_var working_dir_env_option life.working_dir_var
    with_working_dir life working_dir

  -- The outer loop, after a turn; `rest` is the turns to come.
  onward : Main Next → Next → Main Next
  onward rest restarts = rest
  onward rest (exits code) = pure (exits code)
  onward rest killed = pure killed
  onward rest waiting = pure waiting

  -- `restarts` at the end means that the next turn is about to begin.
  pub main : List Life → Main Next
  main [] = pure restarts
  main (life ∷ lives) = do next ← turn life; onward (main lives) next

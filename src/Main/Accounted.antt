-- ===== src/Main/Accounted.antt =====
-- The inner loop opens and closes nothing, and starts and joins no thread.
use garnd.Prelude.{ℕ, Bool, true, false, Option, List, [], ◌∷◌, String}
use garnd.Errors.{DetailedError}
use garnd.Io.{Log, Kernel, Io, Holds, Holds-resume, Holds-recover, Ensures-mono}
use garnd.CircuitBreaker.{TimeSpec, Verdict, instant_exit, reload, circuit_breaker}
use garnd.Signals.{Statics}
use garnd.Signals.Descriptors.{Ledger}
use garnd.Runtime.{Runtime, Listening, notify_system_reloading, notify_system_stopping}
use garnd.Runtime.Notified.{Sent, Unsent, notify_stopping_lem, notify_reloading_lem}
use garnd.Main.{
  Globals, Kind, shutdown, reload_wish, other, kind, Received, log, log_all, logging, break_circuit,
  obey, live_on, stop, restart, handle, receive, Main,
}
use garnd.Main.Signalled.{Serves}

module _ ⦃k : Kernel⦄ (serves : Serves k) (fd n m : ℕ) (st : Statics) (t₀ : Log) where
  abbrev Kept : Globals → Log → Type 0
  Kept g u = Ledger fd n m st t₀ g.events u

  log-Kept : (e : DetailedError) (g : Globals) (t : Log) → Kept g t → Holds Kept (log e g t)
  unfolding log
  log-Kept e g t h =
      rw (serves.log t e).1 (record { descriptors = h.descriptors; threads = h.threads })

  pub log_all-Kept :
      (es : List DetailedError) (g : Globals) (t : Log) → Kept g t → Holds Kept (log_all es g t)
  unfolding log_all
  log_all-Kept [] g t h = h
  log_all-Kept (e ∷ es) g t h =
      Holds-resume Kept (log e g t) _ (log-Kept e g t h) (λ _ g' u h'. log_all-Kept es g' u h')

  logging-Kept :
      (m' : Io Globals DetailedError (Unit {0})) (g : Globals) (t : Log)
      → Holds Kept (m' g t)
      → Holds Kept (logging m' g t)
  unfolding logging
  logging-Kept m' g t h = Holds-recover Kept (m' g t) log h log-Kept

  Sent-Kept :
      (status : String) (g : Globals) (t : Log)
      → Kept g t
      → Unit {0}
      → (g' : Globals) (u : Log) → Sent status g t g' u
      → Kept g' u
  Sent-Kept status g t h _ g' u (same, n', f) =
      rw (same, f) (record { descriptors = h.descriptors; threads = h.threads })

  Unsent-Kept :
      (status : String) (g : Globals) (t : Log)
      → Kept g t
      → (e : DetailedError) (g' : Globals) (u : Log) → Unsent status g t e g' u
      → Kept g' u
  Unsent-Kept status g t h e g' u (same, n', _, f) =
      rw (same, f) (record { descriptors = h.descriptors; threads = h.threads })

  stop-Kept :
      (r : Runtime Listening) (e : DetailedError) (g : Globals) (t : Log)
      → Kept g t
      → Holds Kept (stop r e g t)
  unfolding stop
  stop-Kept r e g t h =
      Holds-resume Kept _ _
        (logging-Kept (notify_system_stopping r) g t (
          Ensures-mono (λ _ g' u. Sent "Stopping service..." g t g' u)
            (λ e' g' u. Unsent "Stopping service..." g t e' g' u) _ _ _ (notify_stopping_lem g t r)
            (Sent-Kept "Stopping service..." g t h) (Unsent-Kept "Stopping service..." g t h)))
        (λ _ g' u h'. Holds-resume Kept _ _ (log-Kept e g' u h') (λ _ _ _ p. p))

  live_on-Kept :
      (r : Runtime Listening) (e : DetailedError) (lives : Bool) (g : Globals) (t : Log)
      → Kept g t
      → Holds Kept (live_on r e lives g t)
  unfolding live_on
  live_on-Kept r e false g t h = h
  live_on-Kept r e true g t h =
      Holds-resume Kept _ _
        (logging-Kept (notify_system_reloading r) g t (
          Ensures-mono (λ _ g' u. Sent "Reloading service..." g t g' u)
            (λ e' g' u. Unsent "Reloading service..." g t e' g' u) _ _ _
            (notify_reloading_lem g t r) (Sent-Kept "Reloading service..." g t h)
            (Unsent-Kept "Reloading service..." g t h)))
        (λ _ g' u h'. Holds-resume Kept _ _ (log-Kept e g' u h') (λ _ _ _ p. p))

  obey-Kept : (v : Verdict) (g : Globals) (t : Log) → Kept g t → Holds Kept (obey g v g t)
  unfolding obey
  obey-Kept instant_exit g t h = record { descriptors = h.descriptors; threads = h.threads }
  obey-Kept (reload b) g t h = h

  handle-Kept :
      (r : Runtime Listening) (clock : Option TimeSpec) (e : DetailedError) (c : Kind)
      (rest : Main Received) (g : Globals) (t : Log)
      → ((g' : Globals) (u : Log) → Kept g' u → Holds Kept (rest g' u))
      → Kept g t
      → Holds Kept (handle r clock e rest c g t)
  unfolding handle restart break_circuit
  handle-Kept r clock e shutdown rest g t next h = stop-Kept r e g t h
  handle-Kept r clock e reload_wish rest g t next h =
      Holds-resume Kept (obey g (circuit_breaker g.breaker clock) g t) _
        (obey-Kept (circuit_breaker g.breaker clock) g t h)
        (λ lives g' u h'. live_on-Kept r e lives g' u h')
  handle-Kept r clock e other rest g t next h =
      Holds-resume Kept (log e g t) _ (log-Kept e g t h) (λ _ g' u h'. next g' u h')

  pub receive-Kept :
      (r : Runtime Listening) (clock : Option TimeSpec) (es : List DetailedError) (g : Globals)
      (t : Log)
      → Kept g t
      → Holds Kept (receive r clock es g t)
  unfolding receive
  receive-Kept r clock [] g t h = h
  receive-Kept r clock (e ∷ es) g t h =
      handle-Kept r clock e (kind e) (receive r clock es) g t (receive-Kept r clock es) h

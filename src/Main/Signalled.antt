-- ===== src/Main/Signalled.antt =====
-- The inner loop of main: the first signal decides, and every error up to it is logged.
use garnd.Prelude.{ℕ, String, ◌≡◌, refl, Option, List, [], ◌∷◌}
use garnd.Errors.{DetailedError}
use garnd.Io.{
  Call, done, Log, Kernel, Io, Ensures, Ensures-mono, resume-Ensures, recover-Ensures, Since,
  Since-refl, Since-trans, Logs, pure, resume, ◌>>◌,
}
use garnd.CircuitBreaker.{TimeSpec, Verdict, instant_exit, reload, circuit_breaker}
use garnd.Runtime.Notified.{Sent, Unsent, notify_stopping_lem, notify_reloading_lem}
use garnd.Runtime.{Runtime, Listening, notify_system_reloading, notify_system_stopping}
use garnd.Main.{
  Globals, Kind, shutdown, reload_wish, other, kind, Received, stopping, reloading, killed, waiting,
  log, logging, break_circuit, obey, live_on, stop, restart, handle, receive, Main,
}

-- Stderr can be written, and the welcome thread has not panicked.
pub record Serves (k : Kernel) : Type 0 where
  pub log : (t : Log) (e : DetailedError) → (n : ℕ) × (k.answer t (Call.log e) ≡ done n)
  pub early :
      (t : Log) (message : String) → (n : ℕ) × (k.answer t (Call.print_early message) ≡ done n)
  pub join : (t : Log) (thread : ℕ) → (n : ℕ) × (k.answer t (Call.join_thread thread) ≡ done n)

-- The kind of the first error that is a signal.
abbrev unless_other : Kind → Kind → Kind
unless_other shutdown rest = shutdown
unless_other reload_wish rest = reload_wish
unless_other other rest = rest

abbrev pub first_signal : List DetailedError → Kind
first_signal [] = other
first_signal (e ∷ es) = unless_other (kind e) (first_signal es)

-- The errors up to the first signal, that included.
abbrev up_to : Kind → List DetailedError → List DetailedError
up_to shutdown rest = []
up_to reload_wish rest = []
up_to other rest = rest

abbrev pub taken : List DetailedError → List DetailedError
taken [] = []
taken (e ∷ es) = e ∷ up_to (kind e) (taken es)

abbrev pub verdict : Globals → Verdict → Received × Globals
verdict g instant_exit = (killed, g)
verdict g (reload breaker) = (reloading, record g { breaker = breaker })

-- What main does is decided by the first signal, and by the circuit breaker if that is a reload.
abbrev pub decide : Globals → Option TimeSpec → Kind → Received × Globals
decide g clock shutdown = (stopping, g)
decide g clock reload_wish = verdict g (circuit_breaker g.breaker clock)
decide g clock other = (waiting, g)

-- Unless the process is killed, all errors taken are logged.
abbrev pub LoggedBy : Received → List DetailedError → Log → Log → Type 0
LoggedBy killed es t u = Since t u
LoggedBy stopping es t u = Logs es t u
LoggedBy reloading es t u = Logs es t u
LoggedBy waiting es t u = Logs es t u

LoggedBy-cons :
    (got : Received) (e : DetailedError) (es : List DetailedError) (n : ℕ) (t u : Log)
    → LoggedBy got es ((Call.log e, done n) ∷ t) u
    → LoggedBy got (e ∷ es) t u
LoggedBy-cons stopping e es n t u h = (t, n, Since-refl t, h)
LoggedBy-cons reloading e es n t u h = (t, n, Since-refl t, h)
LoggedBy-cons waiting e es n t u h = (t, n, Since-refl t, h)
LoggedBy-cons killed e es n t u h = Since-trans t _ u (_ ∷ [], refl) h

module _ ⦃k : Kernel⦄ (serves : Serves k) where
  pub log_lem :
      {S : Type 0} (e : DetailedError) (s : S) (t : Log)
      → Ensures
          (λ _ s' u. (s' ≡ s) × (n : ℕ) × (u ≡ (Call.log e, done n) ∷ t))
          (λ _ _ _. ⊥)
          (log e s t)
  unfolding log
  log_lem e s t = rw (serves.log t e).1 (refl, _, refl)

  logging_lem :
      {S : Type 0} (m : Io S DetailedError (Unit {0})) (s : S) (t : Log)
      → Ensures (λ _ s' u. (s' ≡ s) × Since t u) (λ _ s' u. (s' ≡ s) × Since t u) (m s t)
      → Ensures (λ _ s' u. (s' ≡ s) × Since t u) (λ _ _ _. ⊥) (logging m s t)
  unfolding logging
  logging_lem m s t h =
      recover-Ensures (λ _ s' u. (s' ≡ s) × Since t u) (λ _ s' u. (s' ≡ s) × Since t u) _ _ (m s t)
        _ h (λ _ _ _ x. x)
        (λ e s' u (same, since). rw same (
          Ensures-mono (λ _ s'' v. (s'' ≡ s) × (n : ℕ) × (v ≡ (Call.log e, done n) ∷ u))
            (λ _ _ _. ⊥) _ _ (log e s u) (log_lem e s u)
            (λ _ s'' v (e', n, f). (e', Since-trans t u v since (_ ∷ [], f))) (λ _ _ _ x. x)))

  logged_after :
      (A : Type 0) (a : A) (e : DetailedError) (g : Globals) (t u : Log)
      → Since t u
      → Ensures
          (λ b g' v. (b ≡ a) × (g' ≡ g) × Logs (e ∷ []) t v)
          (λ _ _ _. ⊥)
          ((log e >> pure a) g u)
  logged_after A a e g t u since =
      resume-Ensures (λ _ g' v. (g' ≡ g) × (n : ℕ) × (v ≡ (Call.log e, done n) ∷ u)) (λ _ _ _. ⊥) _
        _ (log e g u) _ (log_lem e g u)
        (λ _ g' v (same, n, f). (refl, same, (u, n, since, ([], f)))) (λ _ _ _ x. x)

  -- The three ways on.
  stop_lem :
      (r : Runtime Listening) (e : DetailedError) (g : Globals) (t : Log)
      → Ensures
          (λ got g' u. (got ≡ stopping) × (g' ≡ g) × Logs (e ∷ []) t u)
          (λ _ _ _. ⊥)
          (stop r e g t)
  unfolding stop
  stop_lem r e g t =
      resume-Ensures (λ _ g' u. (g' ≡ g) × Since t u) (λ _ _ _. ⊥) _ _
        (logging (notify_system_stopping r) g t) _
        (logging_lem (notify_system_stopping r) g t (
          Ensures-mono (λ _ g' u. Sent "Stopping service..." g t g' u)
            (λ e' g' u. Unsent "Stopping service..." g t e' g' u) _ _ _ (notify_stopping_lem g t r)
            (λ _ _ _ (same, n, f). (same, (_ ∷ [], f)))
            (λ _ _ _ (same, n, _, f). (same, (_ ∷ [], f)))))
        (λ _ g' u (same, since). rw same (logged_after Received stopping e g t u since))
        (λ _ _ _ x. x)

  restart_lem :
      (r : Runtime Listening) (clock : Option TimeSpec) (e : DetailedError) (g : Globals) (t : Log)
      → Ensures
          (λ got g' u.
            ((got, g') ≡ verdict g (circuit_breaker g.breaker clock)) × LoggedBy got (e ∷ []) t u)
          (λ _ _ _. ⊥)
          (restart r clock e g t)
  unfolding restart break_circuit obey live_on
  restart_lem r clock e g t = obeyed (circuit_breaker g.breaker clock)
    where
      obeyed :
          (v : Verdict)
          → Ensures
              (λ got g' u. ((got, g') ≡ verdict g v) × LoggedBy got (e ∷ []) t u)
              (λ _ _ _. ⊥)
              (resume (obey g v g t) (λ lives. live_on r e lives))
      obeyed instant_exit = (refl, (_ ∷ [], refl))
      obeyed (reload breaker) =
          resume-Ensures (λ _ g' u. (g' ≡ record g { breaker = breaker }) × Since t u) (λ _ _ _. ⊥)
            _ _ (logging (notify_system_reloading r) (record g { breaker = breaker }) t) _
            (logging_lem (notify_system_reloading r) (record g { breaker = breaker }) t
              (Ensures-mono
                (λ _ g' u. Sent "Reloading service..." (record g { breaker = breaker }) t g' u)
                (λ e' g' u.
                  Unsent "Reloading service..." (record g { breaker = breaker }) t e' g' u)
                _ _ _ (notify_reloading_lem (record g { breaker = breaker }) t r)
                (λ _ _ _ (same, n, f). (same, (_ ∷ [], f)))
                (λ _ _ _ (same, n, _, f). (same, (_ ∷ [], f)))))
            (λ _ g' u (same, since). rw same (
              Ensures-mono
                (λ b g'' v.
                  (b ≡ reloading) × (g'' ≡ record g { breaker = breaker }) × Logs (e ∷ []) t v)
                (λ _ _ _. ⊥) _ _ _
                (logged_after Received reloading e (record g { breaker = breaker }) t u since)
                (λ b g'' v (e₁, e₂, logs). rw (e₁, e₂) (refl, logs)) (λ _ _ _ x. x)))
            (λ _ _ _ x. x)

  abbrev Decides :
      Globals
      → Option TimeSpec
      → Kind
      → List DetailedError
      → Log
      → Received
      → Globals
      → Log
      → Type 0
  Decides g clock c es t got g' u = ((got, g') ≡ decide g clock c) × LoggedBy got es t u

  handle_lem :
      (r : Runtime Listening) (clock : Option TimeSpec) (e : DetailedError)
      (es : List DetailedError) (c first : Kind) (rest : Main Received) (g : Globals) (t : Log)
      → ((t : Log) → Ensures (Decides g clock first es t) (λ _ _ _. ⊥) (rest g t))
      → Ensures
          (Decides g clock (unless_other c first) (e ∷ up_to c es) t)
          (λ _ _ _. ⊥)
          (handle r clock e rest c g t)
  unfolding handle
  handle_lem r clock e es shutdown first rest g t h =
      Ensures-mono (λ got g' u. (got ≡ stopping) × (g' ≡ g) × Logs (e ∷ []) t u) (λ _ _ _. ⊥) _ _
        (stop r e g t) (stop_lem r e g t) (λ got g' u (e₁, e₂, logs). rw (e₁, e₂) (refl, logs))
        (λ _ _ _ x. x)
  handle_lem r clock e es reload_wish first rest g t h = restart_lem r clock e g t
  handle_lem r clock e es other first rest g t h =
      resume-Ensures (λ _ g' u. (g' ≡ g) × (n : ℕ) × (u ≡ (Call.log e, done n) ∷ t)) (λ _ _ _. ⊥) _
        _ (log e g t) _ (log_lem e g t)
        (λ _ g' u (same, n, f).
          rw (same, f)
            (Ensures-mono (Decides g clock first es ((Call.log e, done n) ∷ t)) (λ _ _ _. ⊥) _ _
              (rest g ((Call.log e, done n) ∷ t)) (h ((Call.log e, done n) ∷ t))
              (λ got g'' v (d, logs). (d, LoggedBy-cons got e es n t v logs)) (λ _ _ _ x. x)))
        (λ _ _ _ x. x)

  -- If stderr can be written, the inner loop never panics; the first signal among the errors received
  -- decides how it ends, with the circuit breaker for a reload; and unless the process is killed, the
  -- errors up to that signal are logged, in order.
  pub receive-Decides :
      (r : Runtime Listening) (clock : Option TimeSpec) (es : List DetailedError) (g : Globals)
      (t : Log)
      → Ensures
          (λ got g' u. ((got, g') ≡ decide g clock (first_signal es)) × LoggedBy got (taken es) t u)
          (λ _ _ _. ⊥)
          (receive r clock es g t)
  unfolding receive
  receive-Decides r clock [] g t = (refl, Since-refl t)
  receive-Decides r clock (e ∷ es) g t =
      handle_lem r clock e (taken es) (kind e) (first_signal es) (receive r clock es) g t
        (receive-Decides r clock es g)

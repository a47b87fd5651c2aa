-- ===== src/Main/StartUp.antt =====
-- The steps that a turn begins with: a welcome thread has been started last, or nothing is left over.
use garnd.Prelude.{one, ℕ, String, Option, ◌≡◌, refl, [], ◌∷◌, arith}
use garnd.Errors.{DetailedError}
use garnd.Io.{
  done, Log, Kernel, Outcome, ok, err, panic, Ensures, ErrorsOpen, resume-Ensures, Since,
  Since-trans,
}
use garnd.Signals.{Statics}
use garnd.Signals.Descriptors.{Ledger, Ledger-trans, Ledger-then}
use garnd.Runtime.{Runtime, Uninit, Ready, Listening, init, listen, notify_system_starting}
use garnd.Runtime.Notified.{Sent, Unsent, notify_starting_lem}
use garnd.Runtime.Started.{spawn, Spawned, init-Ledger, listen-Ledger, init-Grows, listen-Grows}
use garnd.Runtime
use garnd.Main.{Globals, Life, statics_of, start_up}

-- A welcome thread runs: it has been started last, and owns the socket.
pub record Begun (fd : ℕ) (g : Globals) (t : Log) (r : Runtime Listening) (g' : Globals) (u : Log)
    : Type 0 where
  pub breaker : g'.breaker ≡ g.breaker
  pub ledger : Ledger fd 0 1 g.events t g'.events u
  pub since : Since t u
  pub spawned :
      (ready : Runtime Ready) × (v : Log) × (u
        ≡ (spawn ready, done r.state_data.welcome_thread) ∷ v)

-- Nothing runs, and the descriptor, as often as it was opened, is closed or kept for the next start.
pub record Ceased (fd : ℕ) (g : Globals) (t : Log) (g' : Globals) (u : Log) : Type 0 where
  pub breaker : g'.breaker ≡ g.breaker
  pub ledger : Ledger fd 0 0 g.events t g'.events u
  pub since : Since t u

module _ ⦃k : Kernel⦄ (open_errors : ErrorsOpen k) (fd : ℕ) where
  init_here :
      (life : Life) (r : Runtime Uninit) (g : Globals) (t u : Log)
      → Ledger fd 0 0 g.events t g.events u
      → Since t u
      → Ensures
          (λ r' g' v.
            (g'.breaker ≡ g.breaker)
            × Ledger fd (one r'.state_data.welcome_socket fd) 0 g.events t g'.events v
            × Since t v)
          (λ _ g' v. Ceased fd g t g' v)
          (statics_of (init life.debug_assertions life.credentials life.address r) g u)
  init_here life r g t u a since =
      zoomed (init life.debug_assertions life.credentials life.address r g.events u)
        (init-Ledger fd open_errors life.debug_assertions life.credentials life.address r g.events
          u)
        ((init-Grows open_errors life.debug_assertions life.credentials life.address r).since
          g.events u)
    where
      zoomed :
          (x : Outcome DetailedError (Runtime Ready) × Statics × Log)
          → Ensures
              (λ r' st v. Ledger fd (one r'.state_data.welcome_socket fd) 0 g.events u st v)
              (λ _ st v. Ledger fd 0 0 g.events u st v)
              x
          → Since u x.2
          → Ensures
              (λ r' g' v.
                (g'.breaker ≡ g.breaker)
                × Ledger fd (one r'.state_data.welcome_socket fd) 0 g.events t g'.events v
                × Since t v)
              (λ _ g' v. Ceased fd g t g' v)
              (x.0, record g { events = x.1 }, x.2)
      zoomed (ok r, st, v) h grown = (
        refl,
        Ledger-then fd (one r.state_data.welcome_socket fd) 0 g.events g.events st t u v a h,
        Since-trans t u v since grown,
      )
      zoomed (err e, st, v) h grown = record {
        breaker = refl;
        ledger = Ledger-trans fd 0 0 0 0 g.events g.events st t u v a h;
        since = Since-trans t u v since grown;
      }
      zoomed (panic, st, v) h grown = absurd h

  listen_here :
      (r : Runtime Ready) (g g' : Globals) (t u : Log)
      → g'.breaker ≡ g.breaker
      → Ledger fd (one r.state_data.welcome_socket fd) 0 g.events t g'.events u
      → Since t u
      → Ensures (λ r' g'' v. Begun fd g t r' g'' v) (λ _ g'' v. Ceased fd g t g'' v) (listen r g' u)
  listen_here r g g' t u same a since =
      began (listen r g' u) (listen-Ledger fd Globals r g' g.events g'.events t u a)
        ((listen-Grows r).since g' u)
    where
      began :
          (x : Outcome DetailedError (Runtime Listening) × Globals × Log)
          → Ensures
              (λ r' s' v. (s' ≡ g') × Spawned r r' u v × Ledger fd 0 1 g.events t g'.events v)
              (λ _ s' v. (s' ≡ g') × Ledger fd 0 0 g.events t g'.events v)
              x
          → Since u x.2
          → Ensures (λ r' g'' v. Begun fd g t r' g'' v) (λ _ g'' v. Ceased fd g t g'' v) x
      began (ok r', g'', v) (e, spawned, b) grown = rw e (record {
        breaker = same;
        ledger = b;
        since = Since-trans t u v since grown;
        spawned = (r, u, spawned);
      })
      began (err e', g'', v) (e, b) grown =
          rw e (record { breaker = same; ledger = b; since = Since-trans t u v since grown })
      began (panic, g'', v) h grown = absurd h

  -- If main holds the error channel, the steps that a turn begins with never panic. They return with a
  -- runtime whose welcome thread was started by their last call, or fail with no thread left. Either
  -- way, for each descriptor: by as many times as they have opened it, it has been closed, handed to
  -- that thread as its socket, or newly kept in the statics for the next start; and the circuit breaker is as it
  -- was.
  pub start_up-Begun :
      (life : Life) (working_dir : Option String) (g : Globals) (t : Log)
      → Ensures
          (λ r g' u. Begun fd g t r g' u)
          (λ _ g' u. Ceased fd g t g' u)
          (start_up life working_dir g t)
  unfolding start_up
  start_up-Begun life working_dir g t =
      resume-Ensures (λ _ g' u. Sent "Starting service..." g t g' u)
        (λ e g' u. Unsent "Starting service..." g t e g' u) _ _ _ _
        (notify_starting_lem g t runtime)
        (λ _ g₁ t₁ (same, n, f).
          rw (same, f)
            (resume-Ensures
              (λ r' g' u.
                (g'.breaker ≡ g.breaker)
                × Ledger fd (one r'.state_data.welcome_socket fd) 0 g.events t g'.events u
                × Since t u)
              (λ _ g' u. Ceased fd g t g' u) _ _ _ _
              (init_here life runtime g t _
                (record { descriptors = omega arith; threads = omega arith }) (_ ∷ [], refl))
              (λ r g' u (same, a, since). listen_here r g g' t u same a since) (λ _ _ _ h. h)))
        (λ e g₁ t₁ (same, n, _, f).
          rw (same, f)
            (record {
              breaker = refl;
              ledger = record { descriptors = omega arith; threads = omega arith };
              since = (_ ∷ [], refl);
            }))
    where
      runtime : Runtime Uninit
      runtime = Runtime.new life.default_working_dir working_dir

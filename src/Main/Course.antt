-- ===== src/Main/Course.antt =====
-- The course of the whole program, as an abstract machine: only the first signal of each turn and the
-- circuit breaker count. main follows it, unless a turn cannot start.
pub mod Limited
use garnd.Prelude.{
  String, ℕ, ◌≡◌, refl, ap, sym, ◌∙◌, ◌⊎◌, inl, inr, Bool, true, false, Option, none, some, List,
  [], ◌∷◌, map, arith,
}
use garnd.Constants.{exit_code_success, exit_code_failure}
use garnd.Errors.{system, DetailedError}
use garnd.Io.{
  Call, done, failed, Log, Kernel, Io, Outcome, Ensures, Ensures-mono, ErrorsOpen, resume-Ensures,
  pure,
}
use garnd.CircuitBreaker.{
  Breaker, TimeSpec, Verdict, instant_exit, reload, circuit_breaker, reloads,
}
use garnd.CircuitBreaker.Rate.{Verdict-cases}
use garnd.Signals.{Statics}
use garnd.Signals.Descriptors.{Ledger, Ledger-refl, Ledger-then}
use garnd.Main.{
  Globals, Life, Kind, shutdown, reload_wish, other, Received, stopping, reloading, killed, waiting,
  Next, exits, restarts, turn, main, onward, Main,
}
use garnd.Main.Signalled.{Serves, first_signal, taken, decide, verdict}
use garnd.Main.Finishing.{Finished, left}
use garnd.Main.Turn.{Turned, turn-Turned}

-- A step of the machine.
step_on : Verdict → Breaker → (Breaker → Next × Breaker) → Next × Breaker
step_on instant_exit b rest = (killed, b)
step_on (reload b') b rest = rest b'

step : Kind → Option TimeSpec → Breaker → (Breaker → Next × Breaker) → Next × Breaker
step shutdown clock b rest = (exits exit_code_success, b)
step other clock b rest = (waiting, b)
step reload_wish clock b rest = step_on (circuit_breaker b clock) b rest

pub course : Breaker → List Life → Next × Breaker
course b [] = (restarts, b)
course b (life ∷ lives) = step (first_signal life.received) life.clock b (λ b'. course b' lives)

-- A turn could not start: its error was logged last, or its early failure was printed last; or systemd
-- could not be told that the daemon listens, which was logged, and the welcome thread was joined last.
abbrev pub Failed : Log → Type 0
Failed u =
    ((e : DetailedError) × (n : ℕ) × (v : Log) × (u ≡ (Call.log e, done n) ∷ v))
    ⊎ ((message : String) × (n : ℕ) × (v : Log) × (u ≡ (Call.print_early message, done n) ∷ v))
    ⊎ ((thread code n m : ℕ) × (v : Log) × (u
          ≡ (Call.join_thread thread, done m)
            ∷ (Call.log (system code), done n)
            ∷ (Call.notify "Listening...", failed code)
            ∷ v))

-- What main came to: the end of the machine, or a failure.
abbrev pub Follows : Next × Breaker → Next → Globals → Log → Type 0
Follows c next g u = ((next, g.breaker) ≡ c) ⊎ ((next ≡ exits exit_code_failure) × Failed u)

abbrev pub FollowsOn : ℕ → Globals → Log → Next × Breaker → Next → Globals → Log → Type 0
FollowsOn fd g₀ t₀ c next g u = Follows c next g u × Ledger fd 0 (left next) g₀.events t₀ g.events u

module _ ⦃k : Kernel⦄ (serves : Serves k) (open_errors : ErrorsOpen k) (fd : ℕ) where
  -- The rest of the program, after a turn that has ended so.
  abbrev Rest : Globals → Log → (Breaker → Next × Breaker) → Main Next → Type 0
  Rest g₀ t₀ f rest =
      (g : Globals) (t : Log)
      → Ledger fd 0 0 g₀.events t₀ g.events t
      → Ensures (FollowsOn fd g₀ t₀ (f g.breaker)) (λ _ _ _. ⊥) (rest g t)

  verdict_on :
      (g₀ : Globals) (t₀ : Log) (thread : ℕ) (life : Life) (w : Verdict)
      (f : Breaker → Next × Breaker) (rest : Main Next) (next : Next) (g g' : Globals) (v t : Log)
      → Rest g₀ t₀ f rest
      → g' ≡ (verdict g w).1
      → Finished thread life (verdict g w).0 next v t
      → Ledger fd 0 (left next) g₀.events t₀ g'.events t
      → Ensures (FollowsOn fd g₀ t₀ (step_on w g.breaker f)) (λ _ _ _. ⊥) (onward rest next g' t)
  unfolding step_on onward
  verdict_on g₀ t₀ thread life instant_exit f rest next g g' v t go same (e, _) l =
      rw (e, same) (inl refl, (rw (e, same) at l))
  verdict_on g₀ t₀ thread life (reload b) f rest next g g' v t go same (e, _) l =
      rw (e, same) (go (record g { breaker = b }) t (rw (e, same) at l))

  served_on :
      (g₀ : Globals) (t₀ : Log) (thread : ℕ) (life : Life) (c : Kind) (f : Breaker → Next × Breaker)
      (rest : Main Next) (next : Next) (g g' : Globals) (v t : Log)
      → Rest g₀ t₀ f rest
      → g' ≡ (decide g life.clock c).1
      → Finished thread life (decide g life.clock c).0 next v t
      → Ledger fd 0 (left next) g₀.events t₀ g'.events t
      → Ensures
          (FollowsOn fd g₀ t₀ (step c life.clock g.breaker f))
          (λ _ _ _. ⊥)
          (onward rest next g' t)
  unfolding step onward
  served_on g₀ t₀ thread life shutdown f rest next g g' v t go same (e, _) l =
      rw (e, same) (inl refl, (rw (e, same) at l))
  served_on g₀ t₀ thread life other f rest next g g' v t go same (e, _) l =
      rw (e, same) (inl refl, (rw (e, same) at l))
  served_on g₀ t₀ thread life reload_wish f rest next g g' v t go same fin l =
      verdict_on g₀ t₀ thread life (circuit_breaker g.breaker life.clock) f rest next g g' v t go
        same fin l

  onward-Turned :
      (g₀ : Globals) (t₀ : Log) (life : Life) (f : Breaker → Next × Breaker) (rest : Main Next)
      (next : Next) (g g' : Globals) (t u : Log)
      → Rest g₀ t₀ f rest
      → Turned fd life g t next g' u
      → Ledger fd 0 (left next) g₀.events t₀ g'.events u
      → Ensures
          (FollowsOn fd g₀ t₀ (step (first_signal life.received) life.clock g.breaker f))
          (λ _ _ _. ⊥)
          (onward rest next g' u)
  unfolding onward
  onward-Turned g₀ t₀ life f rest next g g' t u go (inl (_, e, _, n, printed)) l =
      rw e (inr (refl, inr (inl (_, n, t, printed))), (rw e at l))
  onward-Turned g₀ t₀ life f rest next g g' t u go (inr (_, inl (e, b, n, v, _, logged))) l =
      rw e (inr (refl, inl (b, n, v, logged)), (rw e at l))
  onward-Turned g₀ t₀ life f rest next g g' t u go
        (inr (_, inr (r, g₁, v, begun, inr (e, _, code, n, m, logged)))) l =
      rw e (inr (refl, inr (inr (r.state_data.welcome_thread, code, n, m, v, logged))), (rw e at l))
  onward-Turned g₀ t₀ life f rest next g g' t u go
        (inr (_, inr (r, g₁, v, begun, inl (n, decided, fin)))) l =
      rw (← begun.breaker) (
        served_on g₀ t₀ r.state_data.welcome_thread life (first_signal life.received) f rest next g₁
          g' _ u go decided fin l)

  pub main-Course :
      (lives : List Life) (g : Globals) (t : Log)
      → Ensures (FollowsOn fd g t (course g.breaker lives)) (λ _ _ _. ⊥) (main lives g t)
  unfolding main course
  main-Course lives g t = from lives g t (Ledger-refl fd g.events t)
    where
      from : (lives : List Life) → Rest g t (λ b. course b lives) (main lives)
      from [] g' u l = (inl refl, l)
      from (life ∷ lives) g' u l =
          resume-Ensures
            (λ next g'' v.
              Turned fd life g' u next g'' v × Ledger fd 0 (left next) g'.events u g''.events v)
            (λ _ _ _. ⊥) _ _ (turn life g' u) (onward (main lives))
            (turn-Turned serves fd life g' u open_errors)
            (λ next g'' v (turned, l').
              onward-Turned g t life (λ b. course b lives) (main lives) next g' g'' u v (from lives)
                turned (Ledger-then fd 0 (left next) g.events g'.events g''.events t u v l l'))
            (λ _ _ _ x. x)

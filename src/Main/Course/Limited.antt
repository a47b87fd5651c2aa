-- ===== src/Main/Course/Limited.antt =====
-- The circuit breaker does its work in main: an epoch's reloads are limited.
use garnd.Prelude.{
  ◌+◌, ◌≤◌, ◌<◌, ◌≡◌, refl, ap, sym, ◌∙◌, inl, inr, Option, some, List, [], ◌∷◌, map, arith, All,
  length,
}
use garnd.Io.{Log, Kernel, Ensures, Ensures-mono, ErrorsOpen}
use garnd.CircuitBreaker.{
  Breaker, TimeSpec, Verdict, instant_exit, reload, circuit_breaker, reloads,
}
use garnd.CircuitBreaker.Rate.{InEpoch, reloads_cons, reloads_none, reloads-InEpoch}
use garnd.Main.{Globals, Life, Next, restarts, Kind, shutdown, reload_wish, other, main}
use garnd.Main.Signalled.{Serves, first_signal}
use garnd.Main.Course.{step, step_on, course, FollowsOn, main-Course}

abbrev pub clocks : List Life → List (Option TimeSpec)
clocks = map (λ life. life.clock)

step_on_reload :
    (v : Verdict) (b b' : Breaker) (f : Breaker → Next × Breaker)
    → step_on v b f ≡ (restarts, b')
    → (b₁ : Breaker) × (v ≡ reload b₁) × (f b₁ ≡ (restarts, b'))
unfolding step_on
step_on_reload instant_exit b b' f h = cc
step_on_reload (reload b₁) b b' f h = (b₁, refl, h)

step_reload :
    (c : Kind) (clock : Option TimeSpec) (b b' : Breaker) (f : Breaker → Next × Breaker)
    → step c clock b f ≡ (restarts, b')
    → (b₁ : Breaker) × (circuit_breaker b clock ≡ reload b₁) × (f b₁ ≡ (restarts, b'))
unfolding step
step_reload shutdown clock b b' f h = cc
step_reload other clock b b' f h = cc
step_reload reload_wish clock b b' f h = step_on_reload (circuit_breaker b clock) b b' f h

-- The machine begins another turn only as often as the breaker allows.
pub course-reloads :
    (lives : List Life) (b b' : Breaker)
    → course b lives ≡ (restarts, b')
    → reloads b (clocks lives) ≡ reload b'
unfolding course
course-reloads [] b b' h = reloads_none b ∙ ap reload (ap (λ c. c.1) h)
course-reloads (life ∷ lives) b b' h =
    let (b₁, admitted, rest) =
      step_reload (first_signal life.received) life.clock b b' (λ b''. course b'' lives) h in
    reloads_cons b b₁ life.clock (clocks lives) admitted ∙ course-reloads lives b₁ b' rest

module _ ⦃k : Kernel⦄ (serves : Serves k) (open_errors : ErrorsOpen k) where
  -- When another turn is to begin, the breaker has admitted every turn before.
  pub main-reloads :
      (lives : List Life) (g : Globals) (t : Log)
      → Ensures
          (λ next g' _. next ≡ restarts → reloads g.breaker (clocks lives) ≡ reload g'.breaker)
          (λ _ _ _. ⊥)
          (main lives g t)
  main-reloads lives g t =
      Ensures-mono (FollowsOn 0 g t (course g.breaker lives)) (λ _ _ _. ⊥) _ _ (main lives g t)
        (main-Course serves open_errors 0 lives g t)
        (λ next g' u (follows, _) again. elim follows [
          | inl e ↦
              course-reloads lives g.breaker g'.breaker (sym e ∙ ap (λ n. (n, g'.breaker)) again)
          | inr (e, _) ↦ cc
        ])
        (λ _ _ _ x. x)

  -- If stderr can be written, no welcome thread panics and main holds the error channel, with the counter of reloads at 99 or less: if the circuit breaker's
  -- readings of the clock, one for each turn, all fall into its epoch and are so many that the counter
  -- would pass 99, main does not begin another turn after them.
  pub main-InEpoch :
      (lives : List Life) (ts : List TimeSpec) (g : Globals) (t : Log)
      → clocks lives ≡ map some ts
      → All (InEpoch g.breaker) ts
      → g.breaker.reloads_since_epoch_start ≤ 99
      → 99 < g.breaker.reloads_since_epoch_start + length ts
      → Ensures (λ next _ _. ¬ (next ≡ restarts)) (λ _ _ _. ⊥) (main lives g t)
  main-InEpoch lives ts g t read h le many =
      Ensures-mono
        (λ next g' _. next ≡ restarts → reloads g.breaker (clocks lives) ≡ reload g'.breaker)
        (λ _ _ _. ⊥) _ _ (main lives g t) (main-reloads lives g t)
        (λ next g' u lived again.
          ground (arith, read, lived again, reloads-InEpoch g.breaker ts le h, many))
        (λ _ _ _ x. x)

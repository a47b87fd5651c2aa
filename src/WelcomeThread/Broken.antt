-- ===== src/WelcomeThread/Broken.antt =====
-- src/linux/welcome_thread.rs, the branch of the event loop for a welcome socket that broke down.
use garnd.Prelude.{ℕ, ◌+◌, ◌≡◌, refl, ◌∙◌, true, false, some, List, [], ◌∷◌, length, arith, All}
use garnd.Errors.{runtime, welcome_socket_failed, shutdown_signal}
use garnd.Io.{
  Call, done, Log, Kernel, Ensures, Ensures-mono, resume-Ensures, send_error, ErrorsOpen,
}
use garnd.Protocols.{Garnshared}
use garnd.WelcomeThread.{
  WelcomeThread, Round, Sources, Flow, proceed, any, environment_shutdown, welcome_event, polled,
  round, event_loop,
}

-- How many shutdown signals went into the error channel.
abbrev pub shutdown_signals : Log → ℕ
shutdown_signals [] = 0
shutdown_signals ((Call.send_error shutdown_signal, _) ∷ t) = 1 + shutdown_signals t
shutdown_signals (_ ∷ t) = shutdown_signals t

-- A round that finds nothing but a broken welcome socket.
pub record IsBroken (r : Round) : Type 0 where
  pub shutdown : any r.shutdown ≡ false
  pub reload : any r.reload ≡ false
  pub close_env : any r.close_env ≡ false
  pub welcome : r.welcome ≡ some (record { input = false; other = true })

-- The system lets the thread poll, and main keeps the receiver of the error channel.
pub record Polls (k : Kernel) : Type 0 where
  pub poll : (t : Log) → (n : ℕ) × (k.answer t Call.poll ≡ done n)
  pub errors : ErrorsOpen k

-- A number of rounds later: the thread goes on, with its environments, after `n` shutdown signals.
abbrev pub GoesOn : ℕ → WelcomeThread → Log → Flow → WelcomeThread → Log → Type 0
GoesOn n w t flow w' t' =
    (flow ≡ proceed)
    × (w'.environments ≡ w.environments)
    × (shutdown_signals t' ≡ n + shutdown_signals t)

module _ ⦃k : Kernel⦄ ⦃g : Garnshared⦄ (p : Polls k) (src : Sources) where
  round-IsBroken :
      (r : Round) (w : WelcomeThread) (t : Log)
      → IsBroken r
      → Ensures (GoesOn 1 w t) (λ _ _ _. ⊥) (round src r w t)
  unfolding round polled environment_shutdown welcome_event send_error any
  round-IsBroken r w t h =
      rw
        (
          (p.poll t).1,
          h.shutdown,
          h.reload,
          h.close_env,
          h.welcome,
          (p.errors _ (runtime welcome_socket_failed)).1,
          (p.errors _ shutdown_signal).1,
        )
        (refl, refl, refl)

  -- A broken welcome socket ends nothing: as long as it has flags without input, no other event
  -- occurs, `poll` succeeds and main keeps the error channel open, the welcome thread goes on to the
  -- next round, closes no environment, and sends one shutdown signal in every round.
  pub event_loop-IsBroken :
      (rs : List Round) (w : WelcomeThread) (t : Log)
      → All IsBroken rs
      → Ensures (GoesOn (length rs) w t) (λ _ _ _. ⊥) (event_loop src rs w t)
  unfolding event_loop
  event_loop-IsBroken [] w t h = (refl, refl, omega arith)
  event_loop-IsBroken (r ∷ rs) w t h =
      resume-Ensures (GoesOn 1 w t) (λ _ _ _. ⊥) _ _ (round src r w t) _ (round-IsBroken r w t h.0)
        (λ flow w' t' (e, same, n). rw e (
          Ensures-mono (GoesOn (length rs) w' t') (λ _ _ _. ⊥) _ _ (event_loop src rs w' t')
            (event_loop-IsBroken rs w' t' h.1)
            (λ _ v u (e', same', n'). (e', same' ∙ same, omega (arith, n, n'))) (λ _ _ _ x. x)))
        (λ _ _ _ x. x)

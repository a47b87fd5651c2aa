-- ===== src/WelcomeThread/Threads/Closing.antt =====
-- Environments that are closed.
use garnd.Prelude.{
  ℕ, ◌+◌, ◌≡◌, ap, inl, inr, Option-cases, Bool-cases, false, Option, List, [], ◌∷◌, String, arith,
  lookup, remove, Distinct-remove, length-remove_found, remove_missing,
}
use garnd.Errors.{system}
use garnd.Io.{Call, Log, Kernel, Ensures-mono, Reply-cases, ErrorsOpen, Holds, Holds-resume}
use garnd.Environment.{drop_environment}
use garnd.Environment.Handover.{Ends}
use garnd.Environment.Threads.{spawned, joined, tally, drop_environment-tally}
use garnd.WelcomeThread.{
  WelcomeThread, Sources, PollFlags, any, close_environment, close_environments, acknowledge,
  environment_shutdown,
}
use garnd.WelcomeThread.Threads.{Accounted, send_error-Accounted}

module _ ⦃k : Kernel⦄ (ends : Ends k) (open_errors : ErrorsOpen k) (t₀ : Log) where
  pub close_environment-Accounted :
      (name : String) (w : WelcomeThread) (t : Log)
      → Accounted t₀ w t
      → Holds (Accounted t₀) (close_environment name w t)
  unfolding close_environment
  close_environment-Accounted name w t a = elim (Option-cases (lookup name w.environments)) [
    | inl missing ↦ rw missing (record {
      distinct = Distinct-remove name w.environments a.distinct;
      count = rw (remove_missing name w.environments missing) a.count;
    })
    | inr (env, there) ↦ rw there (
        Ensures-mono (λ _ w' u. (w' ≡ removed name w) × (tally u ≡ (spawned t, joined t + 1)))
          (λ _ _ _. ⊥) _ _ (drop_environment false env (removed name w) t)
          (drop_environment-tally ⊥ ends false env (removed name w) t)
          (λ _ w' u (e, n). rw e (record {
            distinct = Distinct-remove name w.environments a.distinct;
            count = omega (
              arith,
              a.count,
              ap (λ x. x.0) n,
              ap (λ x. x.1) n,
              length-remove_found name w.environments env a.distinct there,
            );
          }))
          (λ _ _ _ x. absurd x))
  ]
    where
      removed : String → WelcomeThread → WelcomeThread
      removed name w = record w { environments = remove name w.environments }

  pub close_environments-Accounted :
      (names : List String) (w : WelcomeThread) (t : Log)
      → Accounted t₀ w t
      → Holds (Accounted t₀) (close_environments names w t)
  unfolding close_environments
  close_environments-Accounted [] w t a = a
  close_environments-Accounted (name ∷ names) w t a =
      let w' : WelcomeThread = record w { close_env_rx = names } in
      Holds-resume (Accounted t₀) (close_environment name w' t) _
        (close_environment-Accounted name w' t (record { distinct = a.distinct; count = a.count }))
        (λ _ s u b. close_environments-Accounted names s u b)

  pub acknowledge-Accounted :
      (fd : ℕ) (w : WelcomeThread) (t : Log)
      → Accounted t₀ w t
      → Holds (Accounted t₀) (acknowledge fd w t)
  unfolding acknowledge
  acknowledge-Accounted fd w t a = elim (Reply-cases (k.answer t (Call.eventfd_read fd))) [
    | inl (n, read) ↦ rw read (record { distinct = a.distinct; count = a.count })
    | inr (n, lost) ↦ rw lost (
        send_error-Accounted open_errors t₀ (system n) w _
          (record { distinct = a.distinct; count = a.count }))
  ]

  pub environment_shutdown-Accounted :
      (src : Sources) (flags : Option PollFlags) (w : WelcomeThread) (t : Log)
      → Accounted t₀ w t
      → Holds (Accounted t₀) (environment_shutdown src flags w t)
  unfolding environment_shutdown
  environment_shutdown-Accounted src flags w t a = elim (Bool-cases (any flags)) [
    | inl raised ↦ rw raised (
        Holds-resume (Accounted t₀) (acknowledge src.close_env_event w t) _
          (acknowledge-Accounted src.close_env_event w t a)
          (λ _ s u b. close_environments-Accounted s.close_env_rx s u b))
    | inr quiet ↦ rw quiet a
  ]

-- ===== src/Environment/Threads.antt =====
-- How many environments' threads have been started and joined.
use garnd.Prelude.{ℕ, ◌+◌, ◌≡◌, refl, Bool, [], ◌∷◌, String, arith}
use garnd.Io.{Call, done, Log, Kernel, Ensures}
use garnd.Environment
use garnd.Environment.{Environment, insert_socket, destructor_failed, join, drop_environment}
use garnd.Environment.Handover.{Ends}

abbrev pub spawned : Log → ℕ
spawned [] = 0
spawned ((Call.spawn_thread _ _ _, done _) ∷ t) = spawned t + 1
spawned (_ ∷ t) = spawned t

abbrev pub joined : Log → ℕ
joined [] = 0
joined ((Call.join_thread _, _) ∷ t) = joined t + 1
joined (_ ∷ t) = joined t

abbrev pub tally : Log → ℕ × ℕ
tally t = (spawned t, joined t)

module _ ⦃k : Kernel⦄ {S : Type 0} where
  pub insert_socket-tally :
      (env : Environment) (passed : ℕ) (s : S) (t : Log)
      → Ensures
          (λ _ s' u. (s' ≡ s) × (tally u ≡ tally t))
          (λ _ s' u. (s' ≡ s) × (tally u ≡ tally t))
          (insert_socket env passed s t)
  unfolding insert_socket
  insert_socket-tally env passed s t = ground arith

  -- A handle is one thread started; without a handle none was.
  pub new-tally :
      (name : String) (s : S) (t : Log)
      → Ensures
          (λ _ s' u. (s' ≡ s) × (tally u ≡ (spawned t + 1, joined t)))
          (λ _ s' u. (s' ≡ s) × (tally u ≡ tally t))
          (Environment.new name s t)
  unfolding Environment.new
  new-tally name s t = ground arith

  pub drop_environment-tally :
      (E : Type 0) (ends : Ends k) (b : Bool) (env : Environment) (s : S) (t : Log)
      → Ensures {E = E}
          (λ _ s' u. (s' ≡ s) × (tally u ≡ (spawned t, joined t + 1)))
          (λ _ _ _. ⊥)
          (drop_environment b env s t)
  unfolding drop_environment join
  drop_environment-tally E ends b env s t =
      rw ((ends.write t env.drop_event).1, (ends.join _ env.thread).1) (refl, refl)

  -- The calls are two: the thread is told, and joined.
  pub drop_environment_log :
      (E : Type 0) (ends : Ends k) (b : Bool) (env : Environment) (s : S) (t : Log)
      → Ensures {E = E}
          (λ _ s' u.
            (s' ≡ s)
            × (n m : ℕ) × (u
                ≡ (Call.join_thread env.thread, done m)
                  ∷ (Call.eventfd_write env.drop_event, done n)
                  ∷ t))
          (λ _ _ _. ⊥)
          (drop_environment b env s t)
  unfolding drop_environment join
  drop_environment_log E ends b env s t =
      rw ((ends.write t env.drop_event).1, (ends.join _ env.thread).1) (refl, _, _, refl)

-- A thread that has not panicked is joined quietly.
pub join_lem :
    ⦃k : Kernel⦄ (S E : Type 0) (b : Bool) (thread n : ℕ) (s : S) (t : Log)
    → k.answer t (Call.join_thread thread) ≡ done n
    → Ensures {E = E}
        (λ _ s' u. (s' ≡ s) × (m : ℕ) × (u ≡ (Call.join_thread thread, done m) ∷ t))
        (λ _ _ _. ⊥)
        (join b thread s t)
unfolding join
join_lem S E b thread n s t e = rw e (refl, n, refl)

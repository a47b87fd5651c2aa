-- ===== src/Environment/Handover.antt =====
-- src/linux/environment.rs: what an environment's start, its end and the passing of a socket to it
-- leave behind.
use garnd.Prelude.{ℕ, ◌≡◌, refl, Bool, ◌∷◌, String, arith}
use garnd.Io.{Call, done, Log, Kernel, Silent, answered, Ensures}
use garnd.Environment
use garnd.Environment.{Environment, insert_socket, destructor_failed, join, drop_environment}

-- Ending an environment's thread does not panic: its drop event can be written, and the thread has
-- not panicked itself.
pub record Ends (k : Kernel) : Type 0 where
  pub write : (t : Log) (fd : ℕ) → (n : ℕ) × (k.answer t (Call.eventfd_write fd) ≡ done n)
  pub join : (t : Log) (thread : ℕ) → (n : ℕ) × (k.answer t (Call.join_thread thread) ≡ done n)

-- The calls by which an environment's thread has taken over a socket, newest first.
abbrev pub Taken : Environment → ℕ → Log → Log → Type 0
Taken env passed t u =
    (n m : ℕ) × (u
      ≡ (Call.recv_response env.thread, done 0)
        ∷ (Call.eventfd_write env.add_listener_event, done n)
        ∷ (Call.send_listener env.thread passed, done m)
        ∷ t)

module _ ⦃k : Kernel⦄ (client : ℕ) {S : Type 0} where
  pub insert_socket-Taken :
      (env : Environment) (passed : ℕ) (s : S) (t : Log)
      → Ensures
          (λ _ s' u. (s' ≡ s) × Taken env passed t u)
          (λ _ s' _. s' ≡ s)
          (insert_socket env passed s t)
  unfolding insert_socket
  insert_socket-Taken env passed s t = ground arith

  pub insert_socket-Silent :
      (env : Environment) (passed : ℕ) (s : S) (t : Log)
      → Silent client t (insert_socket env passed s t)
  unfolding insert_socket
  insert_socket-Silent env passed s t = ground arith

  pub new_keeps :
      (name : String) (s : S) (t : Log)
      → Ensures (λ _ s' _. s' ≡ s) (λ _ s' _. s' ≡ s) (Environment.new name s t)
  unfolding Environment.new
  new_keeps name s t = ground arith

  pub new-Silent : (name : String) (s : S) (t : Log) → Silent client t (Environment.new name s t)
  unfolding Environment.new
  new-Silent name s t = ground arith

  pub drop_environment_keeps :
      (E : Type 0) (ends : Ends k) (b : Bool) (env : Environment) (s : S) (t : Log)
      → Ensures {E = E}
          (λ _ s' u. (s' ≡ s) × (answered client u ≡ answered client t))
          (λ _ _ _. ⊥)
          (drop_environment b env s t)
  unfolding drop_environment join
  drop_environment_keeps E ends b env s t =
      rw ((ends.write t env.drop_event).1, (ends.join _ env.thread).1) (refl, refl)

-- ===== src/Environment/Descriptors.antt =====
-- A balance of descriptors: how often each is opened, and how often it is closed, moved to an environment's
-- thread, or kept as the two events of an environment.
use garnd.Prelude.{one, ℕ, ◌+◌, ◌≡◌, ap, Bool, [], ◌∷◌, String, arith}
use garnd.Io.{Call, done, Log, Kernel, Ensures}
use garnd.Environment
use garnd.Environment.{Environment, insert_socket, drop_environment, join}
use garnd.Environment.Handover.{Ends}

-- How often a descriptor has been opened.
abbrev pub opened : ℕ → Log → ℕ
opened x [] = 0
opened x ((Call.accept _, done fd) ∷ t) = opened x t + one fd x
opened x ((Call.dup _, done fd) ∷ t) = opened x t + one fd x
opened x ((Call.eventfd_new, done fd) ∷ t) = opened x t + one fd x
opened x (_ ∷ t) = opened x t

-- How often it has been closed, moved to a thread, or kept by an environment whose thread was started.
abbrev pub settled : ℕ → Log → ℕ
settled x [] = 0
settled x ((Call.close fd, _) ∷ t) = settled x t + one fd x
settled x ((Call.send_listener _ fd, _) ∷ t) = settled x t + one fd x
settled x ((Call.spawn_thread _ add_listener_event drop_event, done _) ∷ t) =
    settled x t + one add_listener_event x + one drop_event x
settled x (_ ∷ t) = settled x t

-- From `t` to `u`, with the descriptor `x` in hand `a` times before and `b` times after.
abbrev pub Balance : (x a b : ℕ) → Log → Log → Type 0
Balance x a b t u = opened x u + settled x t + a ≡ opened x t + settled x u + b

abbrev pub counts : ℕ → Log → ℕ × ℕ
counts x t = (opened x t, settled x t)

-- What the counts leave alone.
pub Balance-counts :
    (x a b : ℕ) (t u v : Log) → counts x v ≡ counts x u → Balance x a b t u → Balance x a b t v
Balance-counts x a b t u v e h = omega (arith, h, ap (λ c. c.0) e, ap (λ c. c.1) e)

pub Balance-trans :
    (x a b c : ℕ) (t u v : Log) → Balance x a b t u → Balance x b c u v → Balance x a c t v
Balance-trans x a b c t u v h h' = omega (arith, h, h')

abbrev pub Balanced : {A S : Type 0} → (x a b : ℕ) → Log → A → S → Log → Type 0
Balanced x a b t _ _ u = Balance x a b t u

module _ ⦃k : Kernel⦄ {S : Type 0} (x : ℕ) where
  -- The socket is moved, whatever the answer.
  pub insert_socket-Balance :
      (env : Environment) (passed : ℕ) (s : S) (t : Log)
      → Ensures
          (Balanced x (one passed x) 0 t)
          (Balanced x (one passed x) 0 t)
          (insert_socket env passed s t)
  unfolding insert_socket
  insert_socket-Balance env passed s t = ground arith

  -- The two events are kept by the new environment, or closed.
  pub new-Balance :
      (name : String) (s : S) (t : Log)
      → Ensures (Balanced x 0 0 t) (Balanced x 0 0 t) (Environment.new name s t)
  unfolding Environment.new
  new-Balance name s t = ground arith

  pub drop_environment-Balance :
      (E : Type 0) (ends : Ends k) (b : Bool) (env : Environment) (s : S) (t : Log)
      → Ensures {E = E} (Balanced x 0 0 t) (λ _ _ _. ⊥) (drop_environment b env s t)
  unfolding drop_environment join
  drop_environment-Balance E ends b env s t =
      rw ((ends.write t env.drop_event).1, (ends.join _ env.thread).1) (omega arith)

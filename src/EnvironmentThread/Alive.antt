-- ===== src/EnvironmentThread/Alive.antt =====
-- Steps of an environment's thread that keep it alive, and how they compose.
use garnd.Prelude.{◌≡◌, inl, inr, true}
use garnd.Io.{
  Call, Log, Kernel, Io, Outcome, call, pure, resume, recover, Holds, Holds-resume, Holds-recover,
  Reply-cases,
}
use garnd.Protocols.{Garnshared}
use garnd.Requests.Kept.{Keeps}
use garnd.Shm.{ShmAllocator}
use garnd.EnvironmentThread.{EnvThread, Flow, proceed, leave}

-- What the thread never loses: its owner, and the mutexes.
pub record Alive ⦃g : Garnshared⦄ (shm : ShmAllocator) (e : EnvThread) : Type 0 where
  pub keeps : Keeps shm e.shm
  pub owner : e.owner_alive ≡ true

-- A step of the thread that keeps it alive, and one that may also fail.
abbrev pub Safe :
    ⦃g : Garnshared⦄ → ShmAllocator → {E A : Type 0} → Outcome E A × EnvThread × Log → Type 0
Safe shm x = Holds (λ e _. Alive shm e) x

module _ ⦃g : Garnshared⦄ (shm : ShmAllocator) where
  pub Safe-resume :
      {E A B : Type 0} (x : Outcome E A × EnvThread × Log) (f : A → Io EnvThread E B)
      → Safe shm x
      → ((b : A) (e : EnvThread) (t : Log) → Alive shm e → Safe shm (f b e t))
      → Safe shm (resume x f)
  Safe-resume x f safe next = Holds-resume (λ e _. Alive shm e) x f safe next

  pub Safe-recover :
      {E F A : Type 0} (x : Outcome E A × EnvThread × Log) (f : E → Io EnvThread F A)
      → Safe shm x
      → ((b : E) (e : EnvThread) (t : Log) → Alive shm e → Safe shm (f b e t))
      → Safe shm (recover x f)
  Safe-recover x f safe handled = Holds-recover (λ e _. Alive shm e) x f safe handled

  pub flow-Safe :
      (flow : Flow) (m : Io EnvThread ⊥ Flow) (e : EnvThread) (t : Log)
      → Alive shm e
      → Safe shm (m e t)
      → Safe shm {E = ⊥}
          ((elim flow as (λ _. Io EnvThread ⊥ Flow) [ proceed ↦ m | leave ↦ pure leave ]) e t)
  flow-Safe proceed m e t a safe = safe
  flow-Safe leave m e t a safe = a

  pub call-Safe :
      ⦃k : Kernel⦄ (c : Call) (e : EnvThread) (t : Log) → Alive shm e → Safe shm (call c e t)
  call-Safe ⦃k⦄ c e t a = elim (Reply-cases (k.answer t c)) [
    | inl (n, got) ↦ rw got a
    | inr (n, lost) ↦ rw lost a
  ]

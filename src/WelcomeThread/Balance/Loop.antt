-- ===== src/WelcomeThread/Balance/Loop.antt =====
-- The balance of descriptors over the whole event loop.
use garnd.Prelude.{ℕ}
use garnd.Io.{Log, Kernel, Io}
use garnd.Environment.{Environment}
use garnd.Environment.Handover.{Ends}
use garnd.Environment.Descriptors.{Balance}
use garnd.WelcomeThread.{WelcomeThread}

module _ ⦃k : Kernel⦄ (d : ℕ) (ends : Ends k) (t₀ : Log) where
  abbrev R : WelcomeThread → Log → Type 0
  R _ u = Balance d 0 0 t₀ u

-- ===== src/Io/Answered.antt =====
-- Counting the messages to one client in a log.
use garnd.Prelude.{ℕ, ◌+◌, ◌≡◌, [], ◌∷◌, ◌==◌, if◌then◌else◌}
use garnd.Io.Calls.{Call, Log}
use garnd.Io.Monad.{Outcome}

-- How many messages to a client's socket a log holds, sent or tried.
abbrev pub answered : ℕ → Log → ℕ
answered fd [] = 0
answered fd ((Call.send f _, _) ∷ t) = (if f == fd then 1 else 0) + answered fd t
answered fd ((Call.send_with_fd f _ _, _) ∷ t) = (if f == fd then 1 else 0) + answered fd t
answered fd (_ ∷ t) = answered fd t

-- Code that sends nothing to the client.
abbrev pub Silent : {S E A : Type 0} → ℕ → Log → Outcome E A × S × Log → Type 0
Silent fd t (_, _, t') = answered fd t' ≡ answered fd t

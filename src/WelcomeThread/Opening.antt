-- ===== src/WelcomeThread/Opening.antt =====
-- src/linux/welcome_thread.rs, `handle_open_environment`: a client is handed over to the environment
-- of the name that it asked for.
use garnd.Prelude.{ℕ, ◌≡◌, ◌⊎◌, ◌∷◌, String}
use garnd.Io.{Call, Reply, done, Log, Kernel}
use garnd.Protocols.{Garnshared, open_environment_ok}
use garnd.WelcomeThread.{WelcomeThread}
use garnd.WelcomeThread.Joining.{Joined, Went}

-- The last calls: the environment's thread took over a duplicate of the client's socket, then the
-- client was told so.
abbrev pub Confirmed :
    ⦃k : Kernel⦄ → ⦃g : Garnshared⦄ → String → ℕ → Log → WelcomeThread → Log → Type 0
Confirmed ⦃k⦄ ⦃g⦄ name client t w u =
    (passed : ℕ) × (k.answer t (Call.dup client) ≡ done passed)
    × (v : Log) × Joined name passed w v
    × (text : String) × (g.welcome.serialize open_environment_ok ≡ done text)
    × (m : ℕ) × (u ≡ (Call.send client text, done m) ∷ v)

-- The same, with the client's own socket closed.
abbrev pub Opened :
    ⦃k : Kernel⦄ → ⦃g : Garnshared⦄ → String → ℕ → Log → WelcomeThread → Log → Type 0
Opened name client t w u =
    (r : Reply ℕ) × (v : Log) × (u ≡ (Call.close client, r) ∷ v) × Confirmed name client t w v

-- The environment's thread took over the socket, but the client may not have been told: the message
-- could not be sent, or tells of an internal error.
abbrev pub Unconfirmed : String → ℕ → WelcomeThread → Log → Type 0
Unconfirmed name client w u =
    (passed : ℕ) × (v : Log) × Joined name passed w v
    × (text : String) × (r : Reply ℕ) × (u ≡ (Call.send client text, r) ∷ v)

-- A failure: one message to the client, and either nothing else has changed, or the environment's
-- thread had the socket already.
abbrev pub Failed :
    {E : Type 0} → String → ℕ → WelcomeThread → Log → E → WelcomeThread → Log → Type 0
Failed name client w t _ w' u =
    Went name client 1 w t w' u × ((w' ≡ w) ⊎ Unconfirmed name client w' u)

-- The same, with the client's own socket closed.
abbrev pub FailedClosed :
    {E : Type 0} → String → ℕ → WelcomeThread → Log → E → WelcomeThread → Log → Type 0
FailedClosed name client w t _ w' u =
    Went name client 1 w t w' u
    × (r : Reply ℕ) × (v : Log) × (u ≡ (Call.close client, r) ∷ v)
    × ((w' ≡ w) ⊎ Unconfirmed name client w' v)

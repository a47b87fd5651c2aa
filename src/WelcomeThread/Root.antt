-- ===== src/WelcomeThread/Root.antt =====
-- src/linux/welcome_thread.rs, `receive_and_parse_request`: no dealings with root.
use garnd.Prelude.{ℕ, ◌≡◌, ◌≢◌, List, [], ◌∷◌, String}
use garnd.Errors.{DetailedError, ignored_root_request}
use garnd.Io.{
  Call, Reply, done, Log, Kernel, answered, Io, or_else, ignore, fail, pure, ◌>>=◌, ◌>>◌,
}
use garnd.Protocols.{Garnshared, WelcomeRequest}
use garnd.WelcomeThread.{WelcomeThread, checked_request}

-- A request was taken from the client that was accepted, whose user the system knows not to be root;
-- the client has not been answered.
abbrev pub FromUser : ⦃k : Kernel⦄ → ℕ → WelcomeThread → Log → ℕ → WelcomeThread → Log → Type 0
FromUser ⦃k⦄ socket w t fd w' u =
    (w' ≡ w)
    × (k.answer t (Call.accept socket) ≡ done fd)
    × (uid : ℕ) × (k.answer ((Call.accept socket, done fd) ∷ t) (Call.peer_uid fd) ≡ done uid)
    × (uid ≢ 0)
    × (answered fd u ≡ answered fd t)

-- The only calls for a client whose user is root.
abbrev pub RootIgnored : ⦃k : Kernel⦄ → ℕ → Log → List DetailedError → Log → Type 0
RootIgnored ⦃k⦄ socket t es u =
    (fd : ℕ)
    → k.answer t (Call.accept socket) ≡ done fd
    → k.answer ((Call.accept socket, done fd) ∷ t) (Call.peer_uid fd) ≡ done 0
    → (es ≡ ignored_root_request ∷ [])
      × (r : Reply ℕ) × (u
          ≡ (Call.close fd, r) ∷ (Call.peer_uid fd, done 0) ∷ (Call.accept socket, done fd) ∷ t)

module _ ⦃k : Kernel⦄ ⦃g : Garnshared⦄ {text : String}
    (answer : g.welcome.serialize g.welcome.malformed_request ≡ done text) where
  abbrev received : ℕ → Io WelcomeThread (List DetailedError) (ℕ × WelcomeRequest)
  received fd =
      or_else (checked_request fd) (λ es. do ignore (Call.close fd); fail es) >>= λ r. pure (fd, r)

-- ===== src/Environment/Accepted.antt =====
-- src/linux/environment.rs and src/linux/environment_synchronization_thread.rs: the two ends of
-- `insert_socket`. Each thread has a log and a kernel of its own; the channel of responses joins them.
use garnd.Prelude.{
  ℕ, ◌≡◌, refl, subst, Bool, Bool-cases, true, Option, none, some, List, [], ◌∷◌, ◌++◌, All, arith,
  inl, inr, ◌==◌, if◌then◌else◌,
}
use garnd.Errors.{DetailedError, system}
use garnd.Io.{
  Call, done, Log, Kernel, Ensures, resume, call, pure, fail, Ensures-mono, Outcome, ok, err, panic,
  Reply-cases,
}
use garnd.Protocols.{Garnshared}
use garnd.SocketSet.{contains}
use garnd.Environment.{Environment, insert_socket}
use garnd.EnvironmentThread.{Flow, proceed, Handles, EnvThread, handle_event}
use garnd.EnvironmentThread.Handshake.{Told, Responded, handle_event-Responded}

-- `send` on the channel of responses returns no error.
abbrev pub Listening : Kernel → Type 0
Listening k =
    (t : Log) (r : Option DetailedError) → (n : ℕ) × (k.answer t (Call.send_response r) ≡ done n)

-- What the channel of responses delivers as `Ok(())`, after the environment's thread has reached this
-- log, was sent as `Ok(())`.
abbrev pub Delivers : Kernel → ℕ → Log → Type 0
Delivers k thread u =
    (t v : Log) (r : Option DetailedError) (n : ℕ)
    → k.answer t (Call.recv_response thread) ≡ done 0
    → u ≡ (Call.send_response r, done n) ∷ v
    → r ≡ none

All-inside : (P : ℕ → Type 0) (before after : List ℕ) (x : ℕ) → All P (before ++ x ∷ after) → P x
All-inside P [] after x (p, _) = p
All-inside P (y ∷ before) after x (_, ps) = All-inside P before after x ps

-- The last step of `insert_socket`.
received :
    ⦃k : Kernel⦄ {S : Type 0} (env : Environment) (s : S) (t : Log)
    → Ensures
        (λ _ s' _. (s' ≡ s) × ((w : Log) × (k.answer w (Call.recv_response env.thread) ≡ done 0)))
        (λ _ s' _. s' ≡ s)
        (resume
          (call (Call.recv_response env.thread) s t)
          (λ answer. if answer == 0 then pure tt else fail (system answer)))
received ⦃k = k⦄ env s t = elim (Reply-cases (k.answer t (Call.recv_response env.thread))) [
  | inl (n, got) ↦ elim (Bool-cases (n == 0)) [
    | inl zero ↦ rw (got, zero) (refl, (t, ground (arith, got, zero)))
    | inr other ↦ rw (got, other) refl
  ]
  | inr (n, hung_up) ↦ rw hung_up refl
]

-- `insert_socket` returns `Ok(())` only if it has received it.
insert_socket_received :
    ⦃k : Kernel⦄ {S : Type 0} (env : Environment) (passed : ℕ) (s : S) (t : Log)
    → Ensures
        (λ _ s' _. (s' ≡ s) × ((w : Log) × (k.answer w (Call.recv_response env.thread) ≡ done 0)))
        (λ _ s' _. s' ≡ s)
        (insert_socket env passed s t)
unfolding insert_socket
insert_socket_received ⦃k = k⦄ env passed s t =
    elim (Reply-cases (k.answer t (Call.send_listener env.thread passed))) [
      | inl (a, sent) ↦
          elim (Reply-cases (k.answer (t₁ a) (Call.eventfd_write env.add_listener_event))) [
            | inl (b, woken) ↦ rw (sent, woken) (received env s (t₂ a b))
            | inr (n, asleep) ↦ rw (sent, asleep) refl
          ]
      | inr (n, unsent) ↦ rw unsent refl
    ]
  where
    t₁ : ℕ → Log
    t₁ a = (Call.send_listener env.thread passed, done a) ∷ t

    t₂ : ℕ → ℕ → Log
    t₂ a b = (Call.eventfd_write env.add_listener_event, done b) ∷ t₁ a

Told-contains :
    (r : Option DetailedError) (e e' : EnvThread) (u : Log)
    → Told r e e' u
    → r ≡ none
    → All (λ fd. contains fd e'.sockets ≡ true) e.add_listener_rx
Told-contains none e e' u (_, (all, _)) eq = all
Told-contains (some x) e e' u told eq = absurd (cc eq)

-- The state in which code leaves the environment's thread.
state-Ensures :
    {E A : Type 0} (R : A → Type 0) (P : EnvThread → Log → Type 0)
    (x : Outcome E A × EnvThread × Log)
    → Ensures (λ a e u. R a × P e u) (λ _ _ _. ⊥) x
    → P x.1 x.2
state-Ensures R P (ok a, e, u) (_, h) = h
state-Ensures R P (err x, e, u) h = absurd h
state-Ensures R P (panic, e, u) h = absurd h

module _ (kw ke : Kernel) ⦃g : Garnshared⦄ where
  -- A client is only accepted into an environment that has it: let the welcome thread call
  -- `insert_socket`, and let the environment's thread handle the event for new sockets, with the passed
  -- socket among those that were sent. If the environment's thread can send its answer, and an `Ok(())`
  -- that the channel delivers is what that thread sent, then `insert_socket` leaves the welcome thread's
  -- state as it is, and where it returns `Ok(())` the socket set of the environment contains the socket.
  pub insert_socket-handle_event :
      {S : Type 0} (env : Environment) (passed : ℕ) (s : S) (t : Log) (h : Handles) (hung_up : Bool)
      (e : EnvThread) (v : Log) (before after : List ℕ)
      → e.add_listener_rx ≡ before ++ passed ∷ after
      → e.owner_alive ≡ true
      → Listening ke
      → (o : Outcome ⊥ Flow) (e' : EnvThread) (u : Log)
      → handle_event ⦃k = ke⦄ h (record { token = h.add_listener_event; hung_up = hung_up }) e v
        ≡ (o, e', u)
      → Delivers kw env.thread u
      → Ensures
          (λ _ s' _. (s' ≡ s) × (contains passed e'.sockets ≡ true))
          (λ _ s' _. s' ≡ s)
          (insert_socket ⦃k = kw⦄ env passed s t)
  insert_socket-handle_event env passed s t h hung_up e v before after queue alive listening o e' u
        run delivers =
      Ensures-mono _ _ _ _ (insert_socket ⦃k = kw⦄ env passed s t)
        (insert_socket_received ⦃k = kw⦄ env passed s t)
        (λ _ s' _ (same, (w, got)). (same, inside w got)) (λ _ _ _ same. same)
    where
      responded : Responded e e' u
      responded =
          state-Ensures (λ flow. flow ≡ proceed) (Responded e) (o, e', u)
            (subst (λ x. Ensures (λ flow e' u. (flow ≡ proceed) × Responded e e' u) (λ _ _ _. ⊥) x)
              run (handle_event-Responded ⦃k = ke⦄ listening h hung_up e v alive))

      inside :
          (w : Log)
          → kw.answer w (Call.recv_response env.thread) ≡ done 0
          → contains passed e'.sockets ≡ true
      inside w got =
          let (r, n, before_last, last, told) = responded in
          All-inside (λ fd. contains fd e'.sockets ≡ true) before after passed
            (subst (All (λ fd. contains fd e'.sockets ≡ true)) queue
              (Told-contains r e e' before_last told (delivers w before_last r n got last)))

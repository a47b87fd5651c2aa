-- ===== src/Requests/Client.antt =====
-- A request of a client from its receipt to its answer.
use garnd.Prelude.{ℕ, ◌+◌, ◌<◌, ◌≡◌, refl, inl, inr, String, arith}
use garnd.Io.{
  Call, Reply, done, failed, Log, Kernel, answered, Ensures, Ensures-mono, resume-Ensures,
  Reply-cases,
}
use garnd.Protocols.{Garnshared, EnvironmentRequest, open_mutex}
use garnd.Protocols.Answers.{parse_request_answers}
use garnd.Shm.{ShmAllocator}
use garnd.Shm.Invariant.{IsValid}
use garnd.Requests.{receive_and_parse_request, handle_request, serve_client}
use garnd.Requests.Kept.{Keeps, Keeps-refl}
use garnd.Requests.Shared.{handle_open_mutex-Shared}

-- One message for a request that was received, and none where `recv` has failed.
abbrev pub received : Reply ℕ → ℕ
received (done _) = 1
received (failed _) = 0

-- The client has got `n` messages more, and nothing is lost.
abbrev pub Answered :
    ⦃g : Garnshared⦄ {A : Type 0} → ShmAllocator → ℕ → Log → ℕ → A → ShmAllocator → Log → Type 0
Answered shm fd t n _ s u = Keeps shm s × (answered fd u ≡ answered fd t + n)

module _ ⦃k : Kernel⦄ ⦃g : Garnshared⦄ (fd : ℕ) (shm : ShmAllocator) (t : Log) (v : IsValid shm)
    (pos : 0 < g.pthread_mutex.align) where
  receive_lem :
      {text : String}
      → g.environment.serialize g.environment.malformed_request ≡ done text
      → let n = received (k.answer t (Call.recv fd g.environment.max_size)) in
        Ensures
          (λ _ s u. (s ≡ shm) × (answered fd u ≡ answered fd t) × (n ≡ 1))
          (Answered shm fd t n)
          (receive_and_parse_request fd shm t)
  unfolding receive_and_parse_request
  receive_lem answer = elim (Reply-cases (k.answer t (Call.recv fd g.environment.max_size))) [
    | inl (m, got) ↦ rw got (
        Ensures-mono (λ _ s u. (s ≡ shm) × (answered fd u ≡ answered fd t))
          (λ _ s u. (s ≡ shm) × (answered fd u ≡ answered fd t + 1)) _ _ _
          (parse_request_answers g.environment fd (λ s. s ≡ shm) answer _ shm _ refl)
          (λ _ s u (e, n). (e, n, refl)) (λ _ s u (e, n). (rw e (Keeps-refl shm v), n)))
    | inr (m, lost) ↦ rw lost (Keeps-refl shm v, ground arith)
  ]

  -- With a malformed-request response that serializes, on a valid allocator and a mutex alignment
  -- above zero: serving a client never panics, sends the client exactly one message if `recv` gave a
  -- request and none if it failed, keeps the allocator valid and every known mutex where it was.
  pub serve_client_answers :
      {text : String}
      → g.environment.serialize g.environment.malformed_request ≡ done text
      → let n = received (k.answer t (Call.recv fd g.environment.max_size)) in
        Ensures (Answered shm fd t n) (Answered shm fd t n) (serve_client fd shm t)
  unfolding serve_client handle_request
  serve_client_answers answer =
      let n = received (k.answer t (Call.recv fd g.environment.max_size)) in
      resume-Ensures (λ _ s u. (s ≡ shm) × (answered fd u ≡ answered fd t) × (n ≡ 1))
        (Answered shm fd t n) _ _ (receive_and_parse_request fd shm t) _ (receive_lem answer)
        (λ r s u (e, a, one). rw (e, one) (handled r u a)) (λ _ _ _ h. h)
    where
      handled :
          (r : EnvironmentRequest) (u : Log)
          → answered fd u ≡ answered fd t
          → Ensures (Answered shm fd t 1) (Answered shm fd t 1) (handle_request r fd shm u)
      handled (open_mutex name) u a =
          Ensures-mono _ _ (Answered shm fd t 1) (Answered shm fd t 1) _
            (handle_open_mutex-Shared shm name fd u v pos)
            (λ _ s w (keeps, one, _, _, _). (keeps, ground arith))
            (λ _ s w (keeps, one). (keeps, ground arith))

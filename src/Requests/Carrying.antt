-- ===== src/Requests/Carrying.antt =====
-- Serving a client carries along whatever survives each call of a request.
use garnd.Prelude.{ℕ, ◌≡◌, refl, Bool, true, Option, none, some, String, arith}
use garnd.Io.{
  ok, Call, Log, Kernel, Allows, Carries, Carries-resume, Carries-recover, call-Carries,
  convert-Carries, pure-Carries, fail-Carries,
}
use garnd.Protocols.{Garnshared, EnvironmentRequest, open_mutex, open_mutex_ok}
use garnd.Protocols.Carrying.{unwrap_or_report_failure-Carries, parse_request-Carries}
use garnd.Shm.{ShmAllocator, ClientResourceLocation}
use garnd.Shm.Carrying.{is_memory, construct_in_shm-Carries, find_resource-Carries}
use garnd.Requests.{
  receive_and_parse_request, or_report, location_or_new, share, handle_open_mutex, handle_request,
  serve_client,
}

-- The calls of a request: those of the allocator, and the exchange of messages with the client.
abbrev pub is_request : Call → Bool
is_request (Call.recv _ _) = true
is_request (Call.send _ _) = true
is_request (Call.send_with_fd _ _ _) = true
is_request c = is_memory c

module _ ⦃k : Kernel⦄ ⦃g : Garnshared⦄ (P : Log → Type 0)
    (allows : (c : Call) → is_request c ≡ true → Allows {S = ShmAllocator} (λ _ t. P t) c) where
  abbrev R : ShmAllocator → Log → Type 0
  R _ t = P t

  memory : (c : Call) → is_memory c ≡ true → Allows {S = ShmAllocator} R c
  memory c h = allows c (ground (arith, h))

  location_or_new-R :
      (name : String) (fd : ℕ) (o : Option ClientResourceLocation)
      → Carries R (location_or_new name fd o)
  unfolding location_or_new or_report
  location_or_new-R name fd (some l) = pure-Carries R l
  location_or_new-R name fd none =
      unwrap_or_report_failure-Carries g.environment R (λ f text. allows (Call.send f text) refl) _
        fd (construct_in_shm-Carries P memory g.pthread_mutex name)

  share-R : (fd : ℕ) (l : ClientResourceLocation) → Carries R (share fd l)
  unfolding share or_report
  share-R fd l =
      Carries-resume R _ _
        (unwrap_or_report_failure-Carries g.environment R (λ f text. allows (Call.send f text) refl)
          _ fd (convert-Carries R (g.environment.serialize (open_mutex_ok l.page l.offset))))
        (λ response.
          Carries-resume R _ _
            (Carries-recover R _ _
              (call-Carries R (Call.send_with_fd fd response l.fd) (allows _ refl))
              (λ e. fail-Carries R _))
            (λ _. pure-Carries R tt))

  handle_request-R : (request : EnvironmentRequest) (fd : ℕ) → Carries R (handle_request request fd)
  unfolding handle_request handle_open_mutex or_report
  handle_request-R (open_mutex name) fd =
      Carries-resume R _ _
        (unwrap_or_report_failure-Carries g.environment R (λ f text. allows (Call.send f text) refl)
          _ fd (find_resource-Carries P memory g.pthread_mutex name))
        (λ found. Carries-resume R _ _ (location_or_new-R name fd found) (share-R fd))

  pub serve_client-lasts : (fd : ℕ) → Carries R (serve_client fd)
  unfolding serve_client receive_and_parse_request
  serve_client-lasts fd =
      Carries-resume R _ _
        (Carries-resume R _ _
          (Carries-recover R _ _
            (call-Carries R (Call.recv fd g.environment.max_size) (allows _ refl))
            (λ e. fail-Carries R _))
          (λ _.
            Carries-resume R (λ s t. (ok (k.buffer t), s, t)) _ (record { carries = λ s t p. p })
              (λ buffer.
                parse_request-Carries g.environment R (λ f text. allows (Call.send f text) refl) fd
                  buffer)))
        (λ request. handle_request-R request fd)

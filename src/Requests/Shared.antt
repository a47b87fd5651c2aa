-- ===== src/Requests/Shared.antt =====
-- `OpenMutex`: all clients that open a mutex by one name get one location, and every request is
-- answered once.
use garnd.Prelude.{
  ℕ, ◌+◌, ◌<◌, ◌≡◌, refl, inl, inr, Option, none, some, List, [], ◌∷◌, String, arith,
}
use garnd.Errors.{DetailedError}
use garnd.Io.{
  Call, Reply, done, failed, Log, Kernel, ok, Silent, answered, Ensures, Ensures-mono,
  resume-Ensures, or_else, fail, pure, ◌>>◌, call, convert, Reply-cases,
}
use garnd.Protocols.{Garnshared, open_mutex_ok}
use garnd.Protocols.Answers.{unwrap_or_report_failure_answers}
use garnd.Shm.{ShmAllocator, ClientResourceLocation, find_resource}
use garnd.Shm.Invariant.{IsValid}
use garnd.Shm.Lookup.{find_resource_reads}
use garnd.Shm.Silence.{construct_in_shm-Silent, find_resource-Silent}
use garnd.Requests.Kept.{Knows, Keeps, Keeps-refl, construct-Keeps}
use garnd.Requests.{or_report, location_or_new, share, handle_open_mutex}

-- The last call of the log has handed the client a location: page, offset and descriptor.
abbrev pub Sent : ⦃g : Garnshared⦄ → ℕ → ClientResourceLocation → Log → Type 0
Sent ⦃g⦄ fd l u =
    (text : String) × (g.environment.serialize (open_mutex_ok l.page l.offset) ≡ done text)
    × (n : ℕ) × (before : Log) × (u ≡ (Call.send_with_fd fd text l.fd, done n) ∷ before)

-- What the first half of the handler leaves: a known location, and no message.
abbrev Located :
    ⦃g : Garnshared⦄
    → ShmAllocator
    → String
    → ℕ
    → Log
    → ClientResourceLocation
    → ShmAllocator
    → Log
    → Type 0
Located shm name fd t l s u = (Keeps shm s × Knows s name l) × (answered fd u ≡ answered fd t)

-- A failure has been answered, and nothing is lost.
abbrev pub Failed :
    ⦃g : Garnshared⦄ → ShmAllocator → ℕ → Log → List DetailedError → ShmAllocator → Log → Type 0
Failed shm fd t _ s u = Keeps shm s × (answered fd u ≡ answered fd t + 1)

-- What the whole handler leaves after a success.
abbrev pub Shared : ⦃g : Garnshared⦄ → ShmAllocator → String → ℕ → Log → ShmAllocator → Log → Type 0
Shared shm name fd t s u =
    Keeps shm s
    × (answered fd u ≡ answered fd t + 1)
    × (l : ClientResourceLocation) × Knows s name l
    × Sent fd l u

module _ ⦃k : Kernel⦄ ⦃g : Garnshared⦄ where
  location_or_new_lem :
      (name : String) (fd : ℕ) (o : Option ClientResourceLocation) (shm : ShmAllocator) (t : Log)
      → IsValid shm
      → 0 < g.pthread_mutex.align
      → ((u : Log) → (find_resource g.pthread_mutex name shm u).0 ≡ ok o)
      → Ensures (Located shm name fd t) (Failed shm fd t) (location_or_new name fd o shm t)
  unfolding location_or_new or_report
  location_or_new_lem name fd (some l) shm t v pos k = ((Keeps-refl shm v, k), refl)
  location_or_new_lem name fd none shm t v pos unknown =
      unwrap_or_report_failure_answers g.environment fd (λ l s _. Keeps shm s × Knows s name l)
        (Keeps shm) _ shm t (construct-Keeps name shm t v pos unknown)
        (construct_in_shm-Silent fd g.pthread_mutex name shm t)

  convert_reads :
      {A : Type 0} (r : Reply A) (s : ShmAllocator) (u : Log)
      → Ensures (λ a s' _. (s' ≡ s) × (r ≡ done a)) (λ _ s' _. s' ≡ s) (convert r s u)
  convert_reads (done a) s u = (refl, refl)
  convert_reads (failed n) s u = refl

  convert-Silent :
      {A : Type 0} (r : Reply A) (fd : ℕ) (s : ShmAllocator) (u : Log) → Silent fd u (convert r s u)
  convert-Silent r fd s u = refl

  send_location :
      (shm : ShmAllocator) (name text : String) (fd : ℕ) (l : ClientResourceLocation)
      (s : ShmAllocator) (t u : Log)
      → Located shm name fd t l s u
      → g.environment.serialize (open_mutex_ok l.page l.offset) ≡ done text
      → Ensures
          (λ _ s' u'. Shared shm name fd t s' u')
          (Failed shm fd t)
          ((or_else (call (Call.send_with_fd fd text l.fd)) (λ e. fail (e ∷ [])) >> pure tt) s u)
  send_location shm name text fd l s t u ((keeps, knows), n) q =
      elim (Reply-cases (k.answer u (Call.send_with_fd fd text l.fd))) [
        | inl (m, sent) ↦ rw sent (keeps, ground (arith, n), l, knows, (text, q, m, u, refl))
        | inr (m, refused) ↦ rw refused (keeps, ground (arith, n))
      ]

  share_lem :
      (shm : ShmAllocator) (name : String) (fd : ℕ) (l : ClientResourceLocation) (s : ShmAllocator)
      (t u : Log)
      → Located shm name fd t l s u
      → Ensures (λ _ s' u'. Shared shm name fd t s' u') (Failed shm fd t) (share fd l s u)
  unfolding share or_report
  share_lem shm name fd l s t u h =
      resume-Ensures
        (λ text s' u'. ((s' ≡ s) × (reply ≡ done text)) × (answered fd u' ≡ answered fd u))
        (λ _ s' u'. (s' ≡ s) × (answered fd u' ≡ answered fd u + 1)) _ _
        (or_report (convert reply) fd s u) _
        (unwrap_or_report_failure_answers g.environment fd _ (λ s'. s' ≡ s) (convert reply) s u
          (convert_reads reply s u) (convert-Silent reply fd s u))
        (λ text s' u' ((e, q), n).
          send_location shm name text fd l s' t u' (rw e h.0, omega (arith, h.1, n)) q)
        (λ _ s' u' (e, n). (rw e h.0.0, omega (arith, h.1, n)))
    where
      reply : Reply String
      reply = g.environment.serialize (open_mutex_ok l.page l.offset)

  -- On a valid allocator, and a mutex alignment above zero, the handler of `OpenMutex` never panics,
  -- and in every case the client is sent one message, no more. If it succeeds, that message was the
  -- last call and carried the location, page, offset and descriptor, at which the mutex is found
  -- from then on; in every case the allocator is valid again and every mutex known before is found
  -- where it was.
  pub handle_open_mutex-Shared :
      (shm : ShmAllocator) (name : String) (fd : ℕ) (t : Log)
      → IsValid shm
      → 0 < g.pthread_mutex.align
      → Ensures
          (λ _ s u. Shared shm name fd t s u)
          (Failed shm fd t)
          (handle_open_mutex name fd shm t)
  unfolding handle_open_mutex or_report
  handle_open_mutex-Shared shm name fd t v pos =
      resume-Ensures
        (λ o s u.
          ((s ≡ shm) × (u ≡ t) × ((w : Log) → (find_resource g.pthread_mutex name shm w).0 ≡ ok o))
          × (answered fd u ≡ answered fd t))
        (λ _ s u. (s ≡ shm) × (answered fd u ≡ answered fd t + 1)) _ _
        (or_report (find_resource g.pthread_mutex name) fd shm t) _
        (unwrap_or_report_failure_answers g.environment fd _ (λ s. s ≡ shm)
          (find_resource g.pthread_mutex name) shm t
          (find_resource_reads shm g.pthread_mutex name t v)
          (find_resource-Silent fd g.pthread_mutex name shm t))
        (λ o s u ((e, f, finds), n).
          rw (e, f)
            (resume-Ensures (Located shm name fd t) (Failed shm fd t) _ _
              (location_or_new name fd o shm t) _ (location_or_new_lem name fd o shm t v pos finds)
              (λ l s' u' h. share_lem shm name fd l s' t u' h) (λ _ _ _ h. h)))
        (λ _ s u (e, n). (rw e (Keeps-refl shm v), n))

  same_location :
      (s : ShmAllocator) (name : String) (l m : ClientResourceLocation)
      → Knows s name l
      → Knows s name m
      → m ≡ l
  same_location s name l m k j = cc (k [], j [])

  -- All clients share: on a valid allocator and a mutex alignment above zero, a mutex that is known
  -- at a location stays there whatever `OpenMutex` request is handled, also one for another name,
  -- and a request for its name that succeeds hands out that very location.
  pub handle_open_mutex_shares :
      (shm : ShmAllocator) (name other : String) (l : ClientResourceLocation) (fd : ℕ) (t : Log)
      → IsValid shm
      → 0 < g.pthread_mutex.align
      → Knows shm name l
      → Ensures
          (λ _ s u. Knows s name l × (other ≡ name → Sent fd l u))
          (λ _ s _. Knows s name l)
          (handle_open_mutex other fd shm t)
  handle_open_mutex_shares shm name other l fd t v pos k =
      Ensures-mono (λ _ s u. Shared shm other fd t s u) (Failed shm fd t) _ _
        (handle_open_mutex other fd shm t) (handle_open_mutex-Shared shm other fd t v pos)
        (λ _ s u (keeps, n, m, knows, sent).
          let k' : Knows s name l = keeps.known name l k in
          (k', λ e. rw (← same_location s name l m k' (rw e at knows)) sent))
        (λ _ s _ (keeps, n). keeps.known name l k)

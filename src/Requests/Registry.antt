-- ===== src/Requests/Registry.antt =====
-- The abstract view of an environment: a registry, which gives every name a location or none.
use mathlib.Core.Path.{fun_ext}
use mathlib.Core.Option.{map as option_map}
use garnd.Prelude.{
  ℕ, ◌<◌, ◌≡◌, refl, ap, ◌⊎◌, inl, inr, Option, none, some, [], ◌∷◌, String, ◌≢◌, arith,
  if◌then◌else◌, lookup, String-cases,
}
use text.Mathlib.Text.{◌==◌}
use text.Mathlib.TextEquality.{eq_iff}
use garnd.Errors.{DetailedError}
use garnd.Io.{
  Call, Reply, done, failed, Log, Kernel, Io, ok, Ensures, Ensures-mono, resume-Ensures, or_else,
  fail, pure, ◌>>◌, call, convert, Reply-cases,
}
use garnd.Protocols.{Garnshared, open_mutex_ok}
use garnd.Protocols.Tally.{unwrap_or_report_failure_tally}
use garnd.Shm.{
  ShmAllocator, ResourceMetadata, ClientResourceLocation, find_resource, construct_in_shm,
}
use garnd.Shm.Invariant.{IsValid}
use garnd.Shm.Reserve.{Extends}
use garnd.Shm.Construct.{Constructed, construct_in_shm-Constructed}
use garnd.Shm.Lookup.{Finds, find_resource-Finds, find_resource_reads}
use garnd.Requests.{or_report, location_or_new, share, handle_open_mutex}
use garnd.Requests.Shared.{Sent}

-- A page and an offset.
abbrev pub Place : Type 0
Place = ℕ × ℕ

abbrev pub Registry : Type 0
Registry = String → Option Place

abbrev pub spot : ClientResourceLocation → Place
spot l = (l.page, l.offset)

abbrev place_of : Option ResourceMetadata → Option Place
place_of none = none
place_of (some r) = some (r.page, r.offset)

-- What the registry of an allocator is.
abbrev pub registry : ShmAllocator → Registry
registry shm name = place_of (lookup name shm.resources)

abbrev pub enter : String → Place → Registry → Registry
enter name p r other = if name == other then some p else r other

-- The specification: a known name keeps its place, and an unknown one gets a place.
abbrev pub Opens : String → Place → Registry → Registry → Type 0
Opens name p r r' = ((r name ≡ some p) × (r' ≡ r)) ⊎ ((r name ≡ none) × (r' ≡ enter name p r))

-- A request that fails leaves the registry, or has entered the name all the same.
abbrev pub Declines : String → Registry → Registry → Type 0
Declines name r r' = (r' ≡ r) ⊎ ((r name ≡ none) × (p : Place) × (r' ≡ enter name p r))

enter_place :
    (shm s : ShmAllocator) (name : String) (p : Place)
    → (registry s name ≡ some p)
    → ((j : String) → name ≢ j → lookup j s.resources ≡ lookup j shm.resources)
    → registry s ≡ enter name p (registry shm)
enter_place shm s name p here others = fun_ext (λ j. at j (String-cases name j))
  where
    at : (j : String) → (name ≡ j) ⊎ (name ≢ j) → registry s j ≡ enter name p (registry shm) j
    at j (inl same) = ground (arith, eq_iff name j, ap (registry s) same, here)
    at j (inr differ) = ground (arith, eq_iff name j, ap place_of (others j differ))

module _ ⦃k : Kernel⦄ ⦃g : Garnshared⦄ (shm : ShmAllocator) (name : String) (fd : ℕ)
    (valid : IsValid shm) (align : 0 < g.pthread_mutex.align) where
  -- The code that reports a failure to the client leaves the allocator as it is.
  or_report-keeps :
      {A : Type 0} (m : Io ShmAllocator DetailedError A) (P : A → ShmAllocator → Log → Type 0)
      (Q : ShmAllocator → Type 0) (s : ShmAllocator) (t : Log)
      → Ensures P (λ _ s' _. Q s') (m s t)
      → Ensures P (λ _ s' _. Q s') (or_report m fd s t)
  unfolding or_report
  or_report-keeps m P Q s t h =
      unwrap_or_report_failure_tally {T = Unit {0}} g.environment (λ _. tt) (λ _ _ _ _. refl) m fd P
        (λ s' _. Q s') s t (λ _ _ _ _ q. q) h

  -- What a lookup tells of the registry.
  found_at :
      (o : Option ClientResourceLocation)
      → ((w : Log) → (find_resource g.pthread_mutex name shm w).0 ≡ ok o)
      → registry shm name ≡ option_map spot o
  found_at o finds =
      at (lookup name shm.resources) (find_resource-Finds shm g.pthread_mutex name [] valid).0
    where
      at :
          (r : Option ResourceMetadata)
          → Finds shm g.pthread_mutex r (find_resource g.pthread_mutex name shm []).0
          → place_of r ≡ option_map spot o
      at none f = ground (arith, finds [], f)
      at (some r) (inl (typed, p, there, f)) = ground (arith, finds [], f)
      at (some r) (inr (other, f)) = ground (arith, finds [], f)

  -- The first half of the handler opens the name.
  abbrev Opened : ClientResourceLocation → ShmAllocator → Log → Type 0
  Opened l s _ = Opens name (spot l) (registry shm) (registry s)

  location_or_new-Opens :
      (o : Option ClientResourceLocation) (t : Log)
      → ((w : Log) → (find_resource g.pthread_mutex name shm w).0 ≡ ok o)
      → Ensures Opened (λ _ s _. registry s ≡ registry shm) (location_or_new name fd o shm t)
  unfolding location_or_new
  location_or_new-Opens (some l) t finds = inl (found_at (some l) finds, refl)
  location_or_new-Opens none t finds =
      or_report-keeps (construct_in_shm g.pthread_mutex Call.construct name) Opened
        (λ s. registry s ≡ registry shm) shm t
        (Ensures-mono (λ l s _. Constructed shm g.pthread_mutex name l s) (λ _ s _. Extends shm s) _
          _ (construct_in_shm g.pthread_mutex Call.construct name shm t)
          (construct_in_shm-Constructed shm g.pthread_mutex Call.construct name t valid align)
          (λ l s _ c. inr (
            found_at none finds,
            enter_place shm s name (spot l) (ap place_of c.registered) c.others,
          ))
          (λ _ s _ x. ap (λ rs. λ j. place_of (lookup j rs)) x.same_resources))

  -- The second half of the handler leaves the registry alone.
  share_keeps :
      (l : ClientResourceLocation) (s : ShmAllocator) (t : Log)
      → Ensures (λ _ s' u. (s' ≡ s) × Sent fd l u) (λ _ s' _. s' ≡ s) (share fd l s t)
  unfolding share
  share_keeps l s t =
      resume-Ensures (λ text s' _. (s' ≡ s) × (reply ≡ done text)) (λ _ s' _. s' ≡ s) _ _
        (or_report (convert reply) fd s t) _
        (or_report-keeps (convert reply) (λ text s' _. (s' ≡ s) × (reply ≡ done text))
          (λ s'. s' ≡ s) s t (answer reply))
        (λ text s' u (same, q). sent text s' u same q) (λ _ _ _ x. x)
    where
      reply : Reply String
      reply = g.environment.serialize (open_mutex_ok l.page l.offset)

      answer :
          (r : Reply String)
          → Ensures (λ text s' _. (s' ≡ s) × (r ≡ done text)) (λ _ s' _. s' ≡ s) (convert r s t)
      answer (done text) = (refl, refl)
      answer (failed n) = refl

      sent :
          (text : String) (s' : ShmAllocator) (u : Log)
          → s' ≡ s
          → reply ≡ done text
          → Ensures
              (λ _ s'' v. (s'' ≡ s) × Sent fd l v)
              (λ _ s'' _. s'' ≡ s)
              ((or_else (call (Call.send_with_fd fd text l.fd)) (λ e. fail (e ∷ [])) >> pure tt) s'
                u)
      sent text s' u same q = elim (Reply-cases (k.answer u (Call.send_with_fd fd text l.fd))) [
        | inl (n, went) ↦ rw went (same, (text, q, n, u, refl))
        | inr (n, lost) ↦ rw lost same
      ]

  -- On a valid allocator and a mutex alignment above zero, the handler of `OpenMutex` refines the
  -- registry, and never panics. If it succeeds, the registry had the name at a place and is the same, or
  -- did not have the name and has it now at a place, with all other names as they were; and the client's
  -- message, the last call, told it that place. If it fails, the registry is the same, or the name was
  -- not in it and has been entered all the same.
  pub handle_open_mutex-Opens :
      (t : Log)
      → Ensures
          (λ _ s u.
            (l : ClientResourceLocation) × Opens name (spot l) (registry shm) (registry s)
            × Sent fd l u)
          (λ _ s _. Declines name (registry shm) (registry s))
          (handle_open_mutex name fd shm t)
  unfolding handle_open_mutex
  handle_open_mutex-Opens t =
      resume-Ensures
        (λ o s u. (s ≡ shm) × ((w : Log) → (find_resource g.pthread_mutex name shm w).0 ≡ ok o))
        (λ _ s _. s ≡ shm) _ _ (or_report (find_resource g.pthread_mutex name) fd shm t) _
        (or_report-keeps (find_resource g.pthread_mutex name) _ (λ s. s ≡ shm) shm t
          (Ensures-mono
            (λ o s u.
              (s ≡ shm)
              × (u ≡ t)
              × ((w : Log) → (find_resource g.pthread_mutex name shm w).0 ≡ ok o))
            (λ _ s _. s ≡ shm) _ _ (find_resource g.pthread_mutex name shm t)
            (find_resource_reads shm g.pthread_mutex name t valid)
            (λ o s u (same, _, finds). (same, finds)) (λ _ _ _ x. x)))
        (λ o s u (same, finds). rw same (
          resume-Ensures Opened (λ _ s' _. registry s' ≡ registry shm) _ _
            (location_or_new name fd o shm u) _ (location_or_new-Opens o u finds)
            (λ l s' v opened.
              Ensures-mono (λ _ s'' w. (s'' ≡ s') × Sent fd l w) (λ _ s'' _. s'' ≡ s') _ _
                (share fd l s' v) (share_keeps l s' v) (λ _ s'' w (e, sent). (l, rw e opened, sent))
                (λ _ s'' w e. rw e (declined l s' opened)))
            (λ _ s' v e. inl e)))
        (λ _ s u same. inl (ap registry same))
    where
      declined :
          (l : ClientResourceLocation) (s : ShmAllocator)
          → Opens name (spot l) (registry shm) (registry s)
          → Declines name (registry shm) (registry s)
      declined l s (inl (_, e)) = inl e
      declined l s (inr (unknown, e)) = inr (unknown, spot l, e)

-- ===== src/Requests/Granting.antt =====
-- Serving a client is a part of the session.
use mathlib.Core.List.{Memᴰ}
use garnd.Prelude.{
  ◌≢◌, ◌⊎◌, [], All, String-cases, ℕ, ◌≡◌, refl, ◌<◌, inl, inr, false, List, ◌∷◌, String,
}
use garnd.Errors.{DetailedError}
use garnd.Io.{
  Call, Log, Kernel, Outcome, ok, err, panic, Allows, Carries, Carries-resume, Carries-recover,
  call-Carries, fail-Carries,
}
use garnd.Protocols.{Garnshared, EnvironmentRequest, open_mutex}
use garnd.Protocols.Carrying.{parse_request-Carries}
use garnd.Shm.{ShmAllocator, ClientResourceLocation}
use garnd.Requests.Kept.{AllMutexes}
use garnd.Shm.Invariant.{IsValid}
use garnd.Requests.{receive_and_parse_request, handle_open_mutex, handle_request, serve_client}
use garnd.Requests.Session.{
  Continues, Grant, Session, elsewhere, passes_fd, handle_open_mutex-Session, Tells, LocationsApart,
  grants_agree, grants_apart,
}

-- Some grants have been made.
abbrev pub Granting :
    ⦃k : Kernel⦄ ⦃g : Garnshared⦄ → ShmAllocator → Log → ShmAllocator → Log → Type 0
Granting shm t₀ s t = (gs : List Grant) × Session shm t₀ gs s t

module _ ⦃k : Kernel⦄ ⦃g : Garnshared⦄ (shm : ShmAllocator) (t₀ : Log) where
  pub elsewhere-Allows : (c : Call) → passes_fd c ≡ false → Allows (Granting shm t₀) c
  elsewhere-Allows c other r s t (gs, session) = (gs, elsewhere c r other session)

  continued :
      (name : String) (gs : List Grant)
      (x : Outcome (List DetailedError) (Unit {0}) × ShmAllocator × Log)
      → Continues shm t₀ name gs x
      → Granting shm t₀ x.1 x.2
  continued name gs (ok _, s, t) (text, fd, session) =
      (record { name = name; text = text; fd = fd } ∷ gs, session)
  continued name gs (err _, s, t) session = (gs, session)
  continued name gs (panic, s, t) h = absurd h

  module _ (valid : IsValid shm) (align : 0 < g.pthread_mutex.align) where
    handle_request-Carries :
        (request : EnvironmentRequest) (fd : ℕ)
        → Carries (Granting shm t₀) (handle_request request fd)
    unfolding handle_request
    handle_request-Carries (open_mutex name) fd = record {
      carries = λ s t (gs, session).
          continued name gs (handle_open_mutex name fd s t)
            (handle_open_mutex-Session valid align name fd session);
    }

    pub serve_client-Carries : (fd : ℕ) → Carries (Granting shm t₀) (serve_client fd)
    unfolding serve_client receive_and_parse_request
    serve_client-Carries fd =
        Carries-resume R _ _
          (Carries-resume R _ _
            (Carries-recover R _ _
              (call-Carries R (Call.recv fd g.environment.max_size)
                (elsewhere-Allows (Call.recv fd g.environment.max_size) refl))
              (λ e. fail-Carries R _))
            (λ _.
              Carries-resume R (λ s t. (ok (k.buffer t), s, t)) _ (record { carries = λ s t p. p })
                (λ buffer.
                  parse_request-Carries g.environment R
                    (λ f text. elsewhere-Allows (Call.send f text) refl) fd buffer)))
          (λ request. handle_request-Carries request fd)
      where
        R : ShmAllocator → Log → Type 0
        R = Granting shm t₀

-- Two clients were granted the same mutex by one name, or mutexes apart by two.
abbrev pub Compatible : ⦃g : Garnshared⦄ → Grant → Grant → Type 0
Compatible a b =
    ((a.name ≡ b.name) × (a.text ≡ b.text) × (a.fd ≡ b.fd))
    ⊎ ((a.name ≢ b.name)
        × (l m : ClientResourceLocation) × Tells a l
        × Tells b m
        × LocationsApart l m)

-- Any two grants are compatible.
abbrev pub Consistent : ⦃g : Garnshared⦄ → List Grant → Type 0
Consistent [] = Unit
Consistent (a ∷ gs) = All (Compatible a) gs × Consistent gs

module _ ⦃k : Kernel⦄ ⦃g : Garnshared⦄ {shm : ShmAllocator} {t : Log} (valid : IsValid shm)
    (align : 0 < g.pthread_mutex.align) (all : AllMutexes shm) {hs : List Grant} {s : ShmAllocator}
    {u : Log} (session : Session shm t hs s u) where
  two_grants : (a b : Grant) → Memᴰ a hs → Memᴰ b hs → Compatible a b
  two_grants a b ma mb = elim (String-cases a.name b.name) [
    | inl same ↦
        let (text, fd) = grants_agree valid align a b session ma mb same in inl (same, text, fd)
    | inr differ ↦
        let (l, m, tells, tells', apart) = grants_apart valid align a b all session ma mb differ in
        inr (differ, l, m, tells, tells', apart)
  ]

  one_grant :
      (a : Grant) (gs : List Grant)
      → Memᴰ a hs
      → ((b : Grant) → Memᴰ b gs → Memᴰ b hs)
      → All (Compatible a) gs
  one_grant a [] ma sub = tt
  one_grant a (b ∷ gs) ma sub =
      (two_grants a b ma (sub b (Memᴰ.head refl)), one_grant a gs ma (λ c m. sub c (Memᴰ.tail m)))

  pairs : (gs : List Grant) → ((b : Grant) → Memᴰ b gs → Memᴰ b hs) → Consistent gs
  pairs [] sub = tt
  pairs (a ∷ gs) sub = (
    one_grant a gs (sub a (Memᴰ.head refl)) (λ c m. sub c (Memᴰ.tail m)),
    pairs gs (λ c m. sub c (Memᴰ.tail m)),
  )

  -- From a valid allocator of mutexes on, with a mutex alignment above zero, whatever requests for
  -- mutexes clients make, in any order, and whatever calls come between: any two grants are compatible.
  -- Two clients that were granted the same name were sent the same response and the same descriptor;
  -- two that were granted different names were told locations of mutexes that do not overlap, and were
  -- sent the descriptors of these locations.
  pub Session-Consistent : Consistent hs
  Session-Consistent = pairs hs (λ b m. m)

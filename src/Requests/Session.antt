-- ===== src/Requests/Session.antt =====
-- The requests of all clients of an environment, in any order, as the steps of a relation. What a
-- client learns of a mutex is the message that it was sent: the text of the response, and the page's
-- descriptor that goes with it.
use garnd.Prelude.{
  Bool, true, false, ℕ, ◌+◌, ◌≤◌, ◌<◌, ◌≡◌, refl, ap, ◌≢◌, ◌⊎◌, inl, inr, Option, none, some, List,
  [], ◌∷◌, String, arith, All, lookup,
}
use mathlib.Core.List.{Memᴰ}
use garnd.Errors.{DetailedError}
use garnd.Io.{Call, Reply, done, Log, Kernel, Outcome, ok, err, panic, Ensures}
use garnd.Protocols.{Garnshared, open_mutex_ok}
use garnd.Shm.{ShmAllocator, ShmType, ResourceMetadata, ClientResourceLocation, find_resource}
use garnd.Shm.Invariant.{IsValid, Apart}
use garnd.Shm.Lookup.{Finds, find_resource-Finds, lookup-Apart}
use garnd.Requests.{handle_open_mutex}
use garnd.Requests.Kept.{AllMutexes, Knows, Keeps, Keeps-refl, Keeps-trans}
use garnd.Requests.Shared.{Shared, Failed, handle_open_mutex-Shared}

-- A client has asked for a mutex by its name, and was sent this.
pub record Grant : Type 0 where
  pub name : String
  pub text : String
  pub fd : ℕ

abbrev pub passes_fd : Call → Bool
passes_fd (Call.send_with_fd _ _ _) = true
passes_fd _ = false

-- From an allocator and a log on: what the clients were sent, the last one first.
pub data Session ⦃k : Kernel⦄ ⦃g : Garnshared⦄ (shm : ShmAllocator) (t : Log)
    : List Grant → ShmAllocator → Log → Type 0 where
  begin : Session shm t [] shm t
  -- any call that passes no descriptor on, of this thread or of another
  elsewhere :
      {gs : List Grant} {s : ShmAllocator} {u : Log} (c : Call) (r : Reply ℕ)
      → passes_fd c ≡ false
      → Session shm t gs s u
      → Session shm t gs s ((c, r) ∷ u)
  -- a request that succeeds, with its last call
  granted :
      {gs : List Grant} {s s' : ShmAllocator} {u v : Log} (grant : Grant) (client n : ℕ)
      → Session shm t gs s u
      → handle_open_mutex grant.name client s u
        ≡ (ok tt, s', (Call.send_with_fd client grant.text grant.fd, done n) ∷ v)
      → Session shm t (grant ∷ gs) s' ((Call.send_with_fd client grant.text grant.fd, done n) ∷ v)
  refused :
      {gs : List Grant} {s s' : ShmAllocator} {u v : Log} {es : List DetailedError} (name : String)
      (client : ℕ)
      → Session shm t gs s u
      → handle_open_mutex name client s u ≡ (err es, s', v)
      → Session shm t gs s' v

-- How a request for a name continues a session: it grants the name, or fails and grants nothing.
abbrev pub Continues :
    ⦃k : Kernel⦄ ⦃g : Garnshared⦄
    → ShmAllocator
    → Log
    → String
    → List Grant
    → Outcome (List DetailedError) (Unit {0}) × ShmAllocator × Log
    → Type 0
Continues shm t name gs (ok _, s', v) =
    (text : String) × (fd : ℕ) × Session shm t (record { name = name; text = text; fd = fd } ∷ gs)
      s' v
Continues shm t name gs (err _, s', v) = Session shm t gs s' v
Continues shm t name gs (panic, s', v) = ⊥

-- The message gives the location of the mutex.
abbrev Describes : ⦃g : Garnshared⦄ → ShmAllocator → Grant → Type 0
Describes ⦃g⦄ s grant =
    (l : ClientResourceLocation) × Knows s grant.name l
    × (g.environment.serialize (open_mutex_ok l.page l.offset) ≡ done grant.text)
    × (l.fd ≡ grant.fd)

module _ ⦃k : Kernel⦄ ⦃g : Garnshared⦄ where
  Describes-Keeps :
      (s s' : ShmAllocator) (gs : List Grant)
      → Keeps s s'
      → All (Describes s) gs
      → All (Describes s') gs
  Describes-Keeps s s' [] keeps h = tt
  Describes-Keeps s s' (grant ∷ gs) keeps ((l, knows, said, fd), h) =
      ((l, keeps.known grant.name l knows, said, fd), Describes-Keeps s s' gs keeps h)

  granted_lem :
      (name : String) (client n : ℕ) (text : String) (fd : ℕ) (s s' : ShmAllocator) (u v : Log)
      → Ensures
          (λ _ s'' w. Shared s name client u s'' w)
          (Failed s client u)
          (handle_open_mutex name client s u)
      → handle_open_mutex name client s u
        ≡ (ok tt, s', (Call.send_with_fd client text fd, done n) ∷ v)
      → Keeps s s' × Describes s' (record { name = name; text = text; fd = fd })
  granted_lem name client n text fd s s' u v h e =
      let (keeps, _, l, knows, (said, q, m, before, f)) = rw e at h in
      (keeps, (l, knows, cc (q, f), cc f))

  refused_lem :
      (name : String) (client : ℕ) (es : List DetailedError) (s s' : ShmAllocator) (u v : Log)
      → Ensures
          (λ _ s'' w. Shared s name client u s'' w)
          (Failed s client u)
          (handle_open_mutex name client s u)
      → handle_open_mutex name client s u ≡ (err es, s', v)
      → Keeps s s'
  refused_lem name client es s s' u v h e = (rw e at h).0

module _ ⦃k : Kernel⦄ ⦃g : Garnshared⦄ {shm : ShmAllocator} {t : Log} (valid : IsValid shm)
    (align : 0 < g.pthread_mutex.align) where
  Session-Keeps :
      {gs : List Grant} {s : ShmAllocator} {u : Log}
      → Session shm t gs s u
      → Keeps shm s × All (Describes s) gs
  Session-Keeps begin = (Keeps-refl shm valid, tt)
  Session-Keeps (elsewhere c r other before) = Session-Keeps before
  Session-Keeps (granted {gs = gs} {s = s} {s' = s'} {u = u} {v = v} grant client n before e) =
      let (keeps, described) = Session-Keeps before in
      let (kept, new) =
        granted_lem grant.name client n grant.text grant.fd s s' u v
          (handle_open_mutex-Shared s grant.name client u keeps.valid align) e in
      (Keeps-trans shm s s' keeps kept, (new, Describes-Keeps s s' gs kept described))
  Session-Keeps
        (refused {gs = gs} {s = s} {s' = s'} {u = u} {v = v} {es = es} name client before e) =
      let (keeps, described) = Session-Keeps before in
      let kept : Keeps s s' =
        refused_lem name client es s s' u v
          (handle_open_mutex-Shared s name client u keeps.valid align) e in
      (Keeps-trans shm s s' keeps kept, Describes-Keeps s s' gs kept described)

module _ ⦃k : Kernel⦄ ⦃g : Garnshared⦄ where
  granted_one :
      (s : ShmAllocator) (grant : Grant) (gs : List Grant)
      → All (Describes s) gs
      → Memᴰ grant gs
      → Describes s grant
  granted_one s grant [] h m = elim m [ ]
  granted_one s grant (other ∷ gs) (h, hs) (Memᴰ.head e) = rw e h
  granted_one s grant (other ∷ gs) (h, hs) (Memᴰ.tail m) = granted_one s grant gs hs m

  -- What stands at a known location.
  registered_at :
      (s : ShmAllocator) (name : String) (l : ClientResourceLocation)
      → IsValid s
      → Knows s name l
      → (r : ResourceMetadata) × (lookup name s.resources ≡ some r)
        × (r.page ≡ l.page)
        × (r.offset ≡ l.offset)
  registered_at s name l v knows =
      found (lookup name s.resources) refl (find_resource-Finds s g.pthread_mutex name [] v).0
    where
      found :
          (o : Option ResourceMetadata)
          → lookup name s.resources ≡ o
          → Finds s g.pthread_mutex o (find_resource g.pthread_mutex name s []).0
          → (r : ResourceMetadata) × (lookup name s.resources ≡ some r)
            × (r.page ≡ l.page)
            × (r.offset ≡ l.offset)
      found none e finds = absurd (cc (knows [], finds))
      found (some r) e (inl (typed, p, at, finds)) =
          (r, e, cc (knows [], finds), cc (knows [], finds))
      found (some r) e (inr (other, finds)) = absurd (cc (knows [], finds))

-- Two mutexes at these locations do not overlap.
abbrev pub LocationsApart :
    ⦃g : Garnshared⦄ → ClientResourceLocation → ClientResourceLocation → Type 0
LocationsApart ⦃g⦄ l m =
    (l.page ≢ m.page)
    ⊎ (l.offset + g.pthread_mutex.size ≤ m.offset)
    ⊎ (m.offset + g.pthread_mutex.size ≤ l.offset)

-- The message tells the client this location.
abbrev pub Tells : ⦃g : Garnshared⦄ → Grant → ClientResourceLocation → Type 0
Tells ⦃g⦄ grant l =
    (g.environment.serialize (open_mutex_ok l.page l.offset) ≡ done grant.text) × (l.fd ≡ grant.fd)

module _ ⦃k : Kernel⦄ ⦃g : Garnshared⦄ {shm : ShmAllocator} {t : Log} (valid : IsValid shm)
    (align : 0 < g.pthread_mutex.align) where
  pub grants_agree :
      {gs : List Grant} {s : ShmAllocator} {u : Log} (a b : Grant)
      → Session shm t gs s u
      → Memᴰ a gs
      → Memᴰ b gs
      → a.name ≡ b.name
      → (a.text ≡ b.text) × (a.fd ≡ b.fd)
  grants_agree {gs} {s} {u} a b session ma mb same =
      let (keeps, described) = Session-Keeps valid align session in
      let (l, knows, said, fd) = granted_one s a gs described ma in
      let (m, knows', said', fd') = granted_one s b gs described mb in
      let one : l ≡ m = cc (knows [], knows' [], same) in (cc (said, said', one), cc (fd, fd', one))

  pub grants_apart :
      {gs : List Grant} {s : ShmAllocator} {u : Log} (a b : Grant)
      → AllMutexes shm
      → Session shm t gs s u
      → Memᴰ a gs
      → Memᴰ b gs
      → a.name ≢ b.name
      → (l m : ClientResourceLocation) × Tells a l × Tells b m × LocationsApart l m
  grants_apart {gs} {s} {u} a b all session ma mb differ =
      let (keeps, described) = Session-Keeps valid align session in
      let (l, knows, said, fd) = granted_one s a gs described ma in
      let (m, knows', said', fd') = granted_one s b gs described mb in
      let (r, er, pr, or) = registered_at s a.name l keeps.valid knows in
      let (q, eq, pq, oq) = registered_at s b.name m keeps.valid knows' in
      let dr : r.destructor ≡ g.pthread_mutex = keeps.mutexes all a.name r er in
      let dq : q.destructor ≡ g.pthread_mutex = keeps.mutexes all b.name q eq in
      let apart : Apart r q = lookup-Apart s a.name b.name r q keeps.valid differ er eq in
      (l, m, (said, fd), (said', fd'), ground (arith, ap ShmType.size dr, ap ShmType.size dq))

  pub handle_open_mutex-Session :
      {gs : List Grant} {s : ShmAllocator} {u : Log} (name : String) (client : ℕ)
      → Session shm t gs s u
      → Continues shm t name gs (handle_open_mutex name client s u)
  handle_open_mutex-Session {gs} {s} {u} name client session =
      let (keeps, _) = Session-Keeps valid align session in
      step (handle_open_mutex name client s u) refl
        (handle_open_mutex-Shared s name client u keeps.valid align)
    where
      step :
          (x : Outcome (List DetailedError) (Unit {0}) × ShmAllocator × Log)
          → handle_open_mutex name client s u ≡ x
          → Ensures (λ _ s' v. Shared s name client u s' v) (Failed s client u) x
          → Continues shm t name gs x
      step (ok _, s', v) e (keeps, _, l, knows, (text, q, n, before, f)) = (
        text,
        l.fd,
        rw f
            (granted (record { name = name; text = text; fd = l.fd }) client n session (rw f at e)),
      )
      step (err es, s', v) e h = refused name client session e
      step (panic, s', v) e h = absurd h

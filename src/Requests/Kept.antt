-- ===== src/Requests/Kept.antt =====
-- What no request undoes: the allocator's invariant, the location of every mutex, and that every
-- resource is a mutex.
use garnd.Prelude.{◌<◌, ◌≡◌, sym, ◌∙◌, inl, inr, none, some, [], String, ap, String-cases, lookup}
use mathlib.Core.Option.{some-injective}
use garnd.Io.{Call, Log, Kernel, ok, Ensures, Ensures-mono}
use garnd.Protocols.{Garnshared}
use garnd.Shm.{
  ShmAllocator, ResourceMetadata, ClientResourceLocation, find_resource, construct_in_shm,
}
use garnd.Shm.Invariant.{IsValid}
use garnd.Shm.Reserve.{Extends}
use garnd.Shm.Construct.{metadata, Constructed, construct_in_shm-Constructed}
use garnd.Shm.Lookup.{find_resource-Constructed, find_resource_more_pages}

-- A mutex is known by a name, at a location.
abbrev pub Knows : ⦃g : Garnshared⦄ → ShmAllocator → String → ClientResourceLocation → Type 0
Knows ⦃g⦄ shm name l = (u : Log) → (find_resource g.pthread_mutex name shm u).0 ≡ ok (some l)

-- Every resource is a mutex.
abbrev pub AllMutexes : ⦃g : Garnshared⦄ → ShmAllocator → Type 0
AllMutexes ⦃g⦄ shm =
    (name : String) (r : ResourceMetadata)
    → lookup name shm.resources ≡ some r
    → r.destructor ≡ g.pthread_mutex

-- What no request undoes: the allocator's invariant, the location of every mutex, and that every
-- resource is a mutex.
pub record Keeps ⦃g : Garnshared⦄ (shm s : ShmAllocator) : Type 0 where
  pub valid : IsValid s
  pub known : (name : String) (l : ClientResourceLocation) → Knows shm name l → Knows s name l
  pub mutexes : AllMutexes shm → AllMutexes s

module _ ⦃k : Kernel⦄ ⦃g : Garnshared⦄ where
  pub construct-Keeps :
      (name : String) (shm : ShmAllocator) (t : Log)
      → IsValid shm
      → 0 < g.pthread_mutex.align
      → ((u : Log) → (find_resource g.pthread_mutex name shm u).0 ≡ ok none)
      → Ensures
          (λ l s _. Keeps shm s × Knows s name l)
          (λ _ s _. Keeps shm s)
          (construct_in_shm g.pthread_mutex Call.construct name shm t)
  construct-Keeps name shm t v pos unknown =
      Ensures-mono (λ l s _. Constructed shm g.pthread_mutex name l s) (λ _ s _. Extends shm s) _ _
        (construct_in_shm g.pthread_mutex Call.construct name shm t)
        (construct_in_shm-Constructed shm g.pthread_mutex Call.construct name t v pos)
        (λ l s _ c. (
          record {
            valid = c.valid;
            known = λ j m k. elim (String-cases name j) [
              | inl same ↦ absurd (known_unknown m (rw same k))
              | inr ne ↦ λ u.
                  find_resource_more_pages shm s g.pthread_mutex j c.more_pages.0 u v
                    (c.others j ne) c.more_pages.1
                  ∙ k u
            ];
            mutexes = λ all j r e. elim (String-cases name j) [
              | inl same ↦ mutex_found l s c j r same e
              | inr ne ↦ all j r (rw (← c.others j ne) e)
            ];
          },
          λ u. find_resource-Constructed shm s g.pthread_mutex name l u c,
        ))
        (λ _ s _ x. record {
          valid = x.valid;
          known = λ j m k u.
              find_resource_more_pages shm s g.pthread_mutex j x.more_pages.0 u v
                (ap (lookup j) x.same_resources) x.more_pages.1
              ∙ k u;
          mutexes = λ all j r e. all j r (rw (← x.same_resources) e);
        })
    where
      known_unknown : (m : ClientResourceLocation) → Knows shm name m → ⊥
      known_unknown m k = cc (k [], unknown [])

      mutex_found :
          (l : ClientResourceLocation) (s : ShmAllocator)
          → Constructed shm g.pthread_mutex name l s
          → (j : String) (r : ResourceMetadata) → name ≡ j
          → lookup j s.resources ≡ some r
          → r.destructor ≡ g.pthread_mutex
      mutex_found l s c j r same e =
          let f : lookup name s.resources ≡ some r = rw same e in
          ap (λ (m : ResourceMetadata). m.destructor)
            (some-injective r (metadata g.pthread_mutex l.page l.offset) (sym f ∙ c.registered))

  pub Keeps-refl : (shm : ShmAllocator) → IsValid shm → Keeps shm shm
  Keeps-refl shm v = record { valid = v; known = λ name l k. k; mutexes = λ all. all }

  pub Keeps-trans : (a b c : ShmAllocator) → Keeps a b → Keeps b c → Keeps a c
  Keeps-trans a b c h j = record {
    valid = j.valid;
    known = λ name l m. j.known name l (h.known name l m);
    mutexes = λ all. j.mutexes (h.mutexes all);
  }

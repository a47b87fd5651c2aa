-- ===== src/Shm/Lookup.antt =====
-- `find_resource` after `construct_in_shm`, and the separation of the resources that it finds.
use garnd.Prelude.{
  ℕ, ◌<◌, ◌≡◌, refl, ap, ◌≢◌, ◌⊎◌, inl, inr, Option, none, some, List, [], ◌∷◌, ◌++◌, String, arith,
  ◌==◌, length, get_elem?, get_elem?-in_range, get_elem?-append_left, lookup, Dict, Bool-cases,
}
use text.Mathlib.TextEquality.{eq_iff}
use garnd.Errors.{DetailedError, runtime, resource_type_mismatch}
use garnd.Io.{Call, Log, Kernel, Outcome, ok, err, Ensures, Ensures-mono}
use garnd.Shm.{
  ShmAllocator, ShmType, Page, ResourceMetadata, ClientResourceLocation, locate, locate_if_known,
  find_resource, construct_in_shm,
}
use garnd.Shm.Invariant.{IsValid, IsPlaced, AllPlaced, AllApart, ApartFrom, Apart}
use garnd.Shm.Reserve.{Extends}
use garnd.Shm.Construct.{Constructed, construct_in_shm-Constructed}

lookup-IsPlaced :
    (n free size : ℕ) (k : String) (m : Dict ResourceMetadata) (r : ResourceMetadata)
    → AllPlaced n free size m
    → lookup k m ≡ some r
    → IsPlaced n free size r
unfolding lookup
lookup-IsPlaced n free size k [] r h e = cc
lookup-IsPlaced n free size k ((j, q) ∷ m) r h e =
    ground (arith, lookup-IsPlaced n free size k m r h.1)

lookup-ApartFrom :
    (k : String) (m : Dict ResourceMetadata) (r q : ResourceMetadata)
    → ApartFrom r m
    → lookup k m ≡ some q
    → Apart r q
unfolding lookup
lookup-ApartFrom k [] r q h e = cc
lookup-ApartFrom k ((j, x) ∷ m) r q h e = ground (arith, lookup-ApartFrom k m r q h.1)

lookup-AllApart :
    (j k : String) (m : Dict ResourceMetadata) (r q : ResourceMetadata)
    → AllApart m
    → j ≢ k
    → lookup j m ≡ some r
    → lookup k m ≡ some q
    → Apart r q
unfolding lookup
lookup-AllApart j k [] r q h ne e f = cc
lookup-AllApart j k ((i, x) ∷ m) r q h ne e f = ground (
  arith,
  eq_iff i j,
  eq_iff i k,
  lookup-AllApart j k m r q h.1 ne,
  lookup-ApartFrom k m r q,
  lookup-ApartFrom j m q r,
)

-- In a valid allocator two resources of different names do not overlap: they lie on different pages,
-- or one ends before the other begins.
pub lookup-Apart :
    (shm : ShmAllocator) (j k : String) (r q : ResourceMetadata)
    → IsValid shm
    → j ≢ k
    → lookup j shm.resources ≡ some r
    → lookup k shm.resources ≡ some q
    → Apart r q
lookup-Apart shm j k r q v = lookup-AllApart j k shm.resources r q v.apart

-- What a lookup of a type owes to what is registered: nothing for an unknown name, the stored
-- location and the descriptor of its page for the right type, and an error for another type.
abbrev pub Finds :
    ShmAllocator
    → ShmType
    → Option ResourceMetadata
    → Outcome DetailedError (Option ClientResourceLocation)
    → Type 0
Finds shm T none o = o ≡ ok none
Finds shm T (some r) o =
    ((r.type_id ≡ T.uuid)
      × (p : Page) × (get_elem? shm.pages r.page ≡ some p)
      × (o ≡ ok (some (record { page = r.page; offset = r.offset; fd = p.fd }))))
    ⊎ ((r.type_id ≢ T.uuid)
        × (o ≡ err (runtime (resource_type_mismatch T.name "<unavailable at runtime>"))))

locate_if_known-Finds :
    (shm : ShmAllocator) (T : ShmType) (o : Option ResourceMetadata) (t : Log)
    → ((r : ResourceMetadata) → o ≡ some r → r.page < length shm.pages)
    → Finds shm T o (locate_if_known T o shm t).0
      × ((locate_if_known T o shm t).1 ≡ shm)
      × ((locate_if_known T o shm t).2 ≡ t)
unfolding locate_if_known locate
locate_if_known-Finds shm T none t h = (refl, refl, refl)
locate_if_known-Finds shm T (some r) t h =
    let (p, e) = get_elem?-in_range shm.pages r.page (h r refl) in
    elim (Bool-cases (r.type_id == T.uuid)) [
      | inl same ↦ (inl (ground arith, p, e, rw (same, e)), rw (same, e), rw (same, e))
      | inr other ↦ (inr (ground arith, rw other), rw other, rw other)
    ]

-- In a valid allocator `find_resource` never panics, changes nothing and makes no call: it returns
-- nothing for an unknown name; for a resource of the type asked for its stored location, with the
-- descriptor of its page; and the type mismatch error for a resource of another type.
pub find_resource-Finds :
    (shm : ShmAllocator) (T : ShmType) (name : String) (t : Log)
    → IsValid shm
    → Finds shm T (lookup name shm.resources) (find_resource T name shm t).0
      × ((find_resource T name shm t).1 ≡ shm)
      × ((find_resource T name shm t).2 ≡ t)
unfolding find_resource
find_resource-Finds shm T name t v =
    locate_if_known-Finds shm T (lookup name shm.resources) t
      (λ r e. (lookup-IsPlaced _ _ _ name shm.resources r v.placed e).in_pages)

-- Pages that are added at the end leave every location as it was.
locate_if_known_more_pages :
    (shm s : ShmAllocator) (T : ShmType) (o : Option ResourceMetadata) (new : List Page) (t : Log)
    → ((r : ResourceMetadata) → o ≡ some r → r.page < length shm.pages)
    → s.pages ≡ shm.pages ++ new
    → (locate_if_known T o s t).0 ≡ (locate_if_known T o shm t).0
unfolding locate_if_known locate
locate_if_known_more_pages shm s T none new t h e = refl
locate_if_known_more_pages shm s T (some r) new t h e =
    ground (
      arith,
      ap (λ ps. get_elem? ps r.page) e,
      get_elem?-append_left shm.pages new r.page (h r refl),
    )

pub find_resource_more_pages :
    (shm s : ShmAllocator) (T : ShmType) (name : String) (new : List Page) (t : Log)
    → IsValid shm
    → lookup name s.resources ≡ lookup name shm.resources
    → s.pages ≡ shm.pages ++ new
    → (find_resource T name s t).0 ≡ (find_resource T name shm t).0
unfolding find_resource
find_resource_more_pages shm s T name new t v same e = rw same (
    locate_if_known_more_pages shm s T (lookup name shm.resources) new t
      (λ r e. (lookup-IsPlaced _ _ _ name shm.resources r v.placed e).in_pages) e)

pub find_resource-Constructed :
    (shm s : ShmAllocator) (T : ShmType) (name : String) (l : ClientResourceLocation) (t : Log)
    → Constructed shm T name l s
    → (find_resource T name s t).0 ≡ ok (some l)
unfolding find_resource locate_if_known locate
find_resource-Constructed shm s T name l t c =
    let (p, e, f) = c.on_page in rw c.registered (ground (arith, e, f))

locate_if_known_reads :
    (shm : ShmAllocator) (T : ShmType) (o : Option ResourceMetadata) (t : Log)
    → ((r : ResourceMetadata) → o ≡ some r → r.page < length shm.pages)
    → Ensures
        (λ l s u. (s ≡ shm) × (u ≡ t) × ((w : Log) → (locate_if_known T o shm w).0 ≡ ok l))
        (λ _ s u. s ≡ shm)
        (locate_if_known T o shm t)
unfolding locate_if_known locate
locate_if_known_reads shm T none t h = (refl, refl, λ w. refl)
locate_if_known_reads shm T (some r) t h =
    let (p, e) = get_elem?-in_range shm.pages r.page (h r refl) in
    elim (Bool-cases (r.type_id == T.uuid)) [
      | inl same ↦ simp (same, e) (refl, refl, λ w. refl)
      | inr other ↦ rw other refl
    ]

-- In a valid allocator `find_resource` reads the state alone, and does not panic.
pub find_resource_reads :
    (shm : ShmAllocator) (T : ShmType) (name : String) (t : Log)
    → IsValid shm
    → Ensures
        (λ l s u. (s ≡ shm) × (u ≡ t) × ((w : Log) → (find_resource T name shm w).0 ≡ ok l))
        (λ _ s u. s ≡ shm)
        (find_resource T name shm t)
unfolding find_resource
find_resource_reads shm T name t v =
    locate_if_known_reads shm T (lookup name shm.resources) t
      (λ r e. (lookup-IsPlaced _ _ _ name shm.resources r v.placed e).in_pages)

-- On a valid allocator and a type whose alignment is above zero: once `construct_in_shm` has
-- returned a location, `find_resource` for the same name and type returns that very location, and
-- for any other name and type what it returned before; once it has failed, `find_resource` returns
-- for every name and type what it returned before.
pub find_resource-construct_in_shm :
    ⦃k : Kernel⦄ (shm : ShmAllocator) (T : ShmType) (placement_constructor : ℕ → Call)
    (name : String) (t u : Log)
    → IsValid shm
    → 0 < T.align
    → Ensures
        (λ l s _.
          ((find_resource T name s u).0 ≡ ok (some l))
          × ((T' : ShmType) (j : String)
              → name ≢ j
              → (find_resource T' j s u).0 ≡ (find_resource T' j shm u).0))
        (λ _ s _.
          (T' : ShmType) (j : String) → (find_resource T' j s u).0 ≡ (find_resource T' j shm u).0)
        (construct_in_shm T placement_constructor name shm t)
find_resource-construct_in_shm shm T pc name t u v pos =
    Ensures-mono (λ l s _. Constructed shm T name l s) (λ _ s _. Extends shm s) _ _
      (construct_in_shm T pc name shm t) (construct_in_shm-Constructed shm T pc name t v pos)
      (λ l s _ c. (
        find_resource-Constructed shm s T name l u c,
        λ T' j ne.
            find_resource_more_pages shm s T' j c.more_pages.0 u v (c.others j ne) c.more_pages.1,
      ))
      (λ _ s _ x T' j.
        find_resource_more_pages shm s T' j x.more_pages.0 u v (ap (lookup j) x.same_resources)
          x.more_pages.1)

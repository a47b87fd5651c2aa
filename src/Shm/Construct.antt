-- ===== src/Shm/Construct.antt =====
-- `construct_in_shm`: it keeps the invariant and never panics; what it builds is found again.
use garnd.Prelude.{
  ℕ, ◌+◌, ◌-◌, ◌%◌, ◌≤◌, ◌<◌, ◌≡◌, refl, sym, ap, ◌∙◌, ◌≢◌, inl, inr, some, List, ◌++◌, String,
  arith, ltb, length, get_elem?, last?, get_elem?-in_range, last?-eq-get_elem?, lookup,
  contains_key, lookup-insert_self, lookup-insert_ne, Bool-cases, insert,
}
use garnd.Io.{Call, Log, Kernel, Ensures, resume-Ensures, Reply-cases}
use garnd.Shm.{
  ShmAllocator, ShmType, Page, ResourceMetadata, ClientResourceLocation, reserve, place,
  construct_in_shm,
}
use garnd.Shm.Invariant.{
  IsValid, placed_grow, placed-remove, apart-remove, ApartFrom-remove, ApartFrom-placed,
}
use garnd.Shm.Reserve.{Extends, Extends-refl, Reserved, reserve-Reserved}

abbrev pub metadata : ShmType → (page offset : ℕ) → ResourceMetadata
metadata T page offset = record { type_id = T.uuid; page = page; offset = offset; destructor = T }

-- What a successful construction has done: a valid allocator knows the new resource at its location,
-- all others where they were, and has only added pages.
pub record Constructed (shm : ShmAllocator) (T : ShmType) (name : String)
    (l : ClientResourceLocation) (s : ShmAllocator) : Type 0 where
  pub valid : IsValid s
  pub registered : lookup name s.resources ≡ some (metadata T l.page l.offset)
  pub on_page : (p : Page) × (get_elem? s.pages l.page ≡ some p) × (p.fd ≡ l.fd)
  pub others : (j : String) → name ≢ j → lookup j s.resources ≡ lookup j shm.resources
  pub more_pages : (new : List Page) × (s.pages ≡ shm.pages ++ new)

insert-IsValid :
    (s : ShmAllocator) (T : ShmType) (name : String) (p : ℕ)
    → IsValid s
    → 0 < length s.pages
    → s.free_ptr ≤ p
    → p + T.size ≤ s.page_size
    → p % T.align ≡ 0
    → IsValid (record s {
      free_ptr = p + T.size;
      resources = insert name (metadata T (length s.pages - 1) p) s.resources;
    })
unfolding insert
insert-IsValid s T name p v has low fits aligned = record {
  positive = v.positive;
  small = v.small;
  free = fits;
  placed = (
    ground arith,
    placed_grow (length s.pages) s.free_ptr (p + T.size) s.page_size _ (omega arith)
        (placed-remove name (length s.pages) s.free_ptr s.page_size s.resources v.placed),
  );
  apart = (
    ApartFrom-remove name (metadata T (length s.pages - 1) p) s.resources (
        ApartFrom-placed (length s.pages) s.free_ptr s.page_size (metadata T (length s.pages - 1) p)
          s.resources (omega arith) low v.placed),
    apart-remove name s.resources v.apart,
  );
}

raise-IsValid :
    (s : ShmAllocator) (f : ℕ)
    → IsValid s
    → s.free_ptr ≤ f
    → f ≤ s.page_size
    → IsValid (record s { free_ptr = f })
raise-IsValid s f v le fits = record {
  positive = v.positive;
  small = v.small;
  free = fits;
  placed = placed_grow (length s.pages) s.free_ptr f s.page_size s.resources le v.placed;
  apart = v.apart;
}

last_page : (s : ShmAllocator) → 0 < length s.pages → (p : Page) × (last? s.pages ≡ some p)
last_page s h =
    rw (last?-eq-get_elem? s.pages) (get_elem?-in_range s.pages (length s.pages - 1) (omega arith))

place_lem :
    ⦃k : Kernel⦄ (shm : ShmAllocator) (T : ShmType) (pc : ℕ → Call) (name : String) (p : ℕ)
    (s : ShmAllocator) (t : Log)
    → Reserved shm T.size T.align p s
    → Ensures
        (λ l s' _. Constructed shm T name l s')
        (λ _ s' _. Extends shm s')
        (place T pc name p s t)
unfolding place
place_lem ⦃k⦄ shm T pc name p s t r =
    let (page, last) = last_page s r.has_page in
    rw last (elim (Reply-cases (k.answer t (pc (page.mem + p)))) [
      | inl (a, built) ↦ rw built (record {
        valid = insert-IsValid s T name p v r.has_page r.slot.free r.slot.within r.slot.aligned;
        registered = lookup-insert_self name _ s.resources;
        on_page = (page, sym (last?-eq-get_elem? s.pages) ∙ last, refl);
        others = λ j ne. lookup-insert_ne name j _ s.resources ne ∙ ap (lookup j) x.same_resources;
        more_pages = x.more_pages;
      })
      | inr (n, refused) ↦ rw refused (record {
        same_resources = x.same_resources;
        same_page_size = x.same_page_size;
        more_pages = x.more_pages;
        valid = raise-IsValid s (p + T.size) v (omega (arith, r.slot.free)) r.slot.within;
      })
    ])
  where
    x : Extends shm s
    x = r.extends

    v : IsValid s
    v = r.extends.valid

-- On a valid allocator and a type whose alignment is above zero, `construct_in_shm` never panics. If
-- it returns a location, the allocator is valid again and knows the name, with the type, at that
-- location, whose descriptor is that of its page, every other name is found where it was, and pages
-- were only added. If it fails, the allocator is valid, its resources are the same, and pages were
-- only added.
pub construct_in_shm-Constructed :
    ⦃k : Kernel⦄ (shm : ShmAllocator) (T : ShmType) (placement_constructor : ℕ → Call)
    (name : String) (t : Log)
    → IsValid shm
    → 0 < T.align
    → Ensures
        (λ l s _. Constructed shm T name l s)
        (λ _ s _. Extends shm s)
        (construct_in_shm T placement_constructor name shm t)
unfolding construct_in_shm
construct_in_shm-Constructed shm T pc name t v pos =
    elim (Bool-cases (contains_key name shm.resources)) [
      | inl e ↦ rw e x
      | inr e ↦ rw e (elim (Bool-cases (ltb shm.page_size T.size)) [
        | inl e ↦ rw e x
        | inr e ↦ rw e (elim (Bool-cases (ltb shm.page_size T.align)) [
          | inl e ↦ rw e x
          | inr e' ↦ rw e' (
              resume-Ensures (λ p s _. Reserved shm T.size T.align p s) (λ _ s _. Extends shm s) _ _
                (reserve T.size T.align shm t) _
                (reserve-Reserved shm T.size T.align pos t v (ground arith) (ground arith))
                (λ p s t'. place_lem shm T pc name p s t') (λ _ s _ x. x))
        ])
      ])
    ]
  where
    x : Extends shm shm
    x = Extends-refl shm v

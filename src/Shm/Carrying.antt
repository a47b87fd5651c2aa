-- ===== src/Shm/Carrying.antt =====
-- A request to the allocator carries along whatever survives each of its calls.
use garnd.Prelude.{
  arith, Dict, ◌&&◌, ℕ, ◌+◌, ◌-◌, insert, length, contains_key, ltb, last?, get_elem?, ◌==◌, ◌≡◌,
  refl, Bool, true, false, not, Option, none, some, List, [], ◌∷◌, String,
}
use garnd.Errors.{
  DetailedError, runtime, resource_type_mismatch, resource_name_already_in_use,
  resource_too_large_for_page, resource_alignment_larger_than_page,
}
use garnd.Io.{
  Call, Log, Kernel, put, pure, ◌>>◌, Allows, Carries, Carries-resume, Carries-recover, Carries-if,
  call-Carries, ignore-Carries, pure-Carries, fail-Carries, panics-Carries, get-Carries,
  put-Carries, modify-Carries, fail_if, unwrap,
}
use garnd.Shm
use garnd.Shm.{
  checked_page_size, destroy_all, destroy, destruct_in, unmap_all, close_all, drop_allocator,
  ShmAllocator, ShmType, Page, ResourceMetadata, sized_mapping, create_new_page, page_if_none,
  ensure_page, slot_or_new_page, reserve, place, construct_in_shm, find_resource, locate,
  locate_if_known,
}

-- The calls of the allocator.
abbrev pub is_memory : Call → Bool
is_memory Call.memfd_create = true
is_memory (Call.ftruncate _ _) = true
is_memory (Call.add_seals _) = true
is_memory (Call.mmap _ _) = true
is_memory (Call.construct _) = true
is_memory (Call.close _) = true
is_memory _ = false

module _ ⦃k : Kernel⦄ (P : Log → Type 0)
    (allows : (c : Call) → is_memory c ≡ true → Allows {S = ShmAllocator} (λ _ t. P t) c) where
  abbrev R : ShmAllocator → Log → Type 0
  R _ t = P t

  fail_if-R : (b : Bool) (e : DetailedError) → Carries R (fail_if b e)
  fail_if-R true e = fail-Carries R e
  fail_if-R false e = pure-Carries R tt

  unwrap-R : {A : Type 0} (o : Option A) → Carries {E = DetailedError} R (unwrap o)
  unwrap-R none = panics-Carries R
  unwrap-R (some a) = pure-Carries R a

  create_new_page-R : Carries R create_new_page
  unfolding create_new_page sized_mapping
  create_new_page-R =
      Carries-resume R _ _ (call-Carries R Call.memfd_create (allows Call.memfd_create refl)) (λ fd.
        Carries-resume R _ _
          (Carries-recover R _ _
            (Carries-resume R _ _ (get-Carries R) (λ shm. Carries-resume R _ _ (fail_if-R _ _) (λ _.
              Carries-resume R _ _
                (call-Carries R (Call.ftruncate fd shm.page_size) (allows _ refl))
                (λ _.
                  Carries-resume R _ _ (call-Carries R (Call.add_seals fd) (allows _ refl)) (λ _.
                    Carries-resume R _ _ (Carries-if R _ _ _ (panics-Carries R) (pure-Carries R tt))
                      (λ _. call-Carries R (Call.mmap fd shm.page_size) (allows _ refl)))))))
            (λ e.
              Carries-resume R _ _ (ignore-Carries R (Call.close fd) (allows _ refl))
                (λ _. fail-Carries R e)))
          (λ mem. modify-Carries R _ (λ s t p. p)))

  page_if_none-R : (ps : List Page) → Carries R (page_if_none ps)
  unfolding page_if_none
  page_if_none-R [] = create_new_page-R
  page_if_none-R (_ ∷ _) = pure-Carries R tt

  slot_or_new_page-R : (size align : ℕ) (o : Option ℕ) → Carries R (slot_or_new_page size align o)
  unfolding slot_or_new_page
  slot_or_new_page-R size align (some p) = pure-Carries R p
  slot_or_new_page-R size align none =
      Carries-resume R _ _ create_new_page-R
        (λ _. Carries-resume R _ _ (get-Carries R) (λ shm. unwrap-R _))

  reserve-R : (size align : ℕ) → Carries R (reserve size align)
  unfolding reserve ensure_page
  reserve-R size align =
      Carries-resume R _ _ (Carries-resume R _ _ (get-Carries R) (λ shm. page_if_none-R shm.pages))
        (λ _. Carries-resume R _ _ (get-Carries R) (λ shm. slot_or_new_page-R size align _))

  place-R : (T : ShmType) (name : String) (p : ℕ) → Carries R (place T Call.construct name p)
  unfolding place
  place-R T name p =
      Carries-resume R _ _
        (modify-Carries R (λ shm. record shm { free_ptr = p + T.size }) (λ s t h. h))
        (λ _. Carries-resume R _ _ (get-Carries R) (λ shm.
          Carries-resume R _ _ (unwrap-R (last? shm.pages)) (λ page.
            Carries-resume R _
              (λ _. do
                put (record shm {
                  resources =
                      insert name
                        (record {
                          type_id = T.uuid;
                          page = length shm.pages - 1;
                          offset = p;
                          destructor = T;
                        })
                        shm.resources;
                })
                pure (record { page = length shm.pages - 1; offset = p; fd = page.fd }))
              (call-Carries R (Call.construct (page.mem + p)) (allows _ refl))
              (λ _. record { carries = λ s t h. h }))))

  pub construct_in_shm-Carries :
      (T : ShmType) (name : String) → Carries R (construct_in_shm T Call.construct name)
  unfolding construct_in_shm
  construct_in_shm-Carries T name = Carries-resume R _ _ (get-Carries R) (λ shm.
      Carries-resume R _ _
        (fail_if-R (contains_key name shm.resources) (runtime (resource_name_already_in_use name)))
        (λ _.
          Carries-resume R _ _
            (fail_if-R (ltb shm.page_size T.size)
              (runtime (resource_too_large_for_page shm.page_size T.size)))
            (λ _.
              Carries-resume R _ _
                (fail_if-R (ltb shm.page_size T.align)
                  (runtime (resource_alignment_larger_than_page shm.page_size T.align)))
                (λ _. Carries-resume R _ _ (reserve-R T.size T.align) (place-R T name)))))

  locate_if_known-R : (T : ShmType) (o : Option ResourceMetadata) → Carries R (locate_if_known T o)
  unfolding locate_if_known locate
  locate_if_known-R T none = pure-Carries R none
  locate_if_known-R T (some r) =
      Carries-resume R _ _
        (fail_if-R (not (r.type_id == T.uuid))
          (runtime (resource_type_mismatch T.name "<unavailable at runtime>")))
        (λ _. Carries-resume R _ _ (get-Carries R) (λ shm.
          Carries-resume R _ _ (unwrap-R (get_elem? shm.pages r.page))
            (λ page. record { carries = λ s t h. h })))

  pub find_resource-Carries : (T : ShmType) (name : String) → Carries R (find_resource T name)
  unfolding find_resource
  find_resource-Carries T name = Carries-resume R _ _ (get-Carries R) (λ shm. locate_if_known-R T _)

-- The calls of the allocator's drop.
abbrev pub is_release : Call → Bool
is_release (Call.munmap _ _) = true
is_release (Call.destruct _) = true
is_release (Call.close _) = true
is_release Call.report_brittle = true
is_release _ = false

module _ ⦃k : Kernel⦄ (P : Log → Type 0)
    (allows : (c : Call) → is_release c ≡ true → Allows {S = ShmAllocator} (λ _ t. P t) c) where
  abbrev D : ShmAllocator → Log → Type 0
  D _ t = P t

  destroy_all-D :
      {E : Type 0} (pages : List Page) (rs : Dict ResourceMetadata)
      → Carries {E = E} D (destroy_all pages rs)
  unfolding destroy_all destroy destruct_in
  destroy_all-D pages [] = pure-Carries D false
  destroy_all-D {E} pages ((_, r) ∷ rs) =
      Carries-resume D _ _ (destroyed (get_elem? pages r.page))
        (λ panicked. Carries-resume D _ _ (destroy_all-D pages rs) (λ later. pure-Carries D _))
    where
      destroyed : (o : Option Page) → Carries {E = E} D (destruct_in o r)
      destroyed none = pure-Carries D true
      destroyed (some p) =
          Carries-recover D _ _
            (Carries-resume D _ _
              (call-Carries D (Call.destruct (p.mem + r.offset)) (allows _ refl))
              (λ _. pure-Carries D false))
            (λ _. pure-Carries D true)

  unmap_all-D : {E : Type 0} (size : ℕ) (ps : List Page) → Carries {E = E} D (unmap_all size ps)
  unfolding unmap_all
  unmap_all-D size [] = pure-Carries D tt
  unmap_all-D size (p ∷ ps) =
      Carries-resume D _ _
        (Carries-recover D _ _
          (Carries-resume D _ _ (call-Carries D (Call.munmap p.mem size) (allows _ refl))
            (λ _. pure-Carries D tt))
          (λ _. ignore-Carries D Call.report_brittle (allows _ refl)))
        (λ _. unmap_all-D size ps)

  close_all-D : {E : Type 0} (ps : List Page) → Carries {E = E} D (close_all ps)
  unfolding close_all
  close_all-D [] = pure-Carries D tt
  close_all-D (p ∷ ps) =
      Carries-resume D _ _ (ignore-Carries D (Call.close p.fd) (allows _ refl))
        (λ _. close_all-D ps)

  pub drop_allocator-Carries :
      {E : Type 0} (unwinding : Bool) → Carries {E = E} D (drop_allocator unwinding)
  unfolding drop_allocator
  drop_allocator-Carries unwinding = Carries-resume D _ _ (get-Carries D) (λ shm.
      Carries-resume D _ _ (put-Carries D (record shm { resources = [] }) (λ s t h. h)) (λ _.
        Carries-resume D _ _ (destroy_all-D shm.pages shm.resources) (λ panicked.
          Carries-resume D _ _ (unmap_all-D shm.page_size shm.pages) (λ _.
            Carries-resume D _ _
              (Carries-if D (panicked && unwinding) _ _
                (ignore-Carries D Call.report_brittle (allows _ refl)) (pure-Carries D tt))
              (λ _. Carries-resume D _ _ (close_all-D shm.pages) (λ _.
                Carries-resume D _ _
                  (put-Carries D (record shm { resources = []; pages = [] }) (λ s t h. h))
                  (λ _.
                    Carries-if D (panicked && not unwinding) _ _ (panics-Carries D)
                      (pure-Carries D tt))))))))

pub new-Carries : ⦃k : Kernel⦄ {S : Type 0} (P : S → Log → Type 0) → Carries P Shm.new
unfolding Shm.new checked_page_size
new-Carries P = record { carries = λ s t h. ground (arith, h) }

-- ===== src/Shm.antt =====
-- src/linux/shm_allocator.rs: the bump allocator over pages of shared memory. A `usize` has 64 bits.
-- Addresses, descriptors and type ids are numbers.
pub mod Carrying
pub mod Align
pub mod Invariant
pub mod Quiet
pub mod Reserve
pub mod Construct
pub mod Lookup
pub mod Destroying
pub mod Forward
pub mod Silence
pub mod Teardown
mod Tests
use garnd.Prelude.{
  ℕ, ◌+◌, ◌-◌, ◌%◌, ◌^◌, ◌≡◌, Bool, true, false, not, ◌&&◌, ◌||◌, Option, none, some, List, [], ◌∷◌,
  ◌++◌, String, ltb, ◌==◌, if◌then◌else◌, length, get_elem?, last?, Dict, lookup, contains_key,
  insert,
}
use garnd.Prelude.Int.{ℤ, pos, negsuc}
use garnd.Errors.{
  DetailedError, runtime, out_of_range, get_page_size_failed, resource_name_already_in_use,
  resource_too_large_for_page, resource_alignment_larger_than_page, resource_type_mismatch,
}
use garnd.Io.{
  Call, Reply, done, failed, Kernel, Io, outcome_of, pure, fail, panics, get, put, modify, fail_if,
  unwrap, or_else, call, ignore, ◌>>=◌, ◌>>◌,
}

-- What the code asks of a `T: ShmCompatible`: `type_uuid`, `size_of`, `align_of` and `type_name`.
pub record ShmType : Type 0 where
  pub uuid : ℕ
  pub size : ℕ
  pub align : ℕ
  pub name : String

pub record ClientResourceLocation : Type 0 where
  pub page : ℕ
  pub offset : ℕ
  pub fd : ℕ

-- The destructor is a closure that drops a value of the type at an address: it is that type.
pub record ResourceMetadata : Type 0 where
  pub type_id : ℕ
  pub page : ℕ
  pub offset : ℕ
  pub destructor : ShmType

pub record Page : Type 0 where
  pub fd : ℕ
  pub mem : ℕ

pub record ShmAllocator : Type 0 where
  pub resources : Dict ResourceMetadata
  pub page_size : ℕ
  pub pages : List Page
  pub free_ptr : ℕ

abbrev pub Shm : Type 0 → Type 0
Shm = Io ShmAllocator DetailedError

-- `usize::try_from(res).unwrap()` on the answer of `sysconf`, with zero and no limit refused.
checked_page_size : {S : Type 0} → Option ℤ → Io S DetailedError ℕ
checked_page_size none = fail (runtime get_page_size_failed)
checked_page_size (some (negsuc n)) = panics
checked_page_size (some (pos n)) = if n == 0 then fail (runtime get_page_size_failed) else pure n

-- `ShmAllocator::new`
pub new : ⦃k : Kernel⦄ {S : Type 0} → Io S DetailedError ShmAllocator
unfolding checked_page_size
new ⦃k⦄ = do
  answer ← λ s t. (outcome_of (k.page_size t), s, t)
  page_size ← checked_page_size answer
  pure (record { resources = []; page_size = page_size; pages = []; free_ptr = 0 })

pub aligned_up : ℕ → ℕ → ℕ
aligned_up free_ptr align =
    if free_ptr % align == 0 then free_ptr else (free_ptr + (align - free_ptr % align)) % 2 ^ 64

pub get_aligned_free_pointer : ShmAllocator → ℕ → ℕ → Option ℕ
get_aligned_free_pointer shm size align =
    let aligned_free_ptr = aligned_up shm.free_ptr align in
    if ltb shm.page_size ((aligned_free_ptr + size) % 2 ^ 64) then none else some aligned_free_ptr

-- The new file gets its size and its seals, and is mapped. The descriptor closes if a step fails.
sized_mapping : ⦃k : Kernel⦄ → ℕ → Shm ℕ
sized_mapping fd = do
  shm ← get
  fail_if (not (ltb shm.page_size (2 ^ 63))) out_of_range
  call (Call.ftruncate fd shm.page_size)
  call (Call.add_seals fd)
  if shm.page_size == 0 then panics else pure tt
  call (Call.mmap fd shm.page_size)

pub create_new_page : ⦃k : Kernel⦄ → Shm (Unit {0})
create_new_page = do
  fd ← call Call.memfd_create
  mem ← or_else (sized_mapping fd) (λ e. do ignore (Call.close fd); fail e)
  modify
      (λ shm. record shm { free_ptr = 0; pages = shm.pages ++ record { fd = fd; mem = mem } ∷ [] })

-- `construct_in_shm` sees to it that there is a current page,
page_if_none : ⦃k : Kernel⦄ → List Page → Shm (Unit {0})
page_if_none [] = create_new_page
page_if_none (_ ∷ _) = pure tt

ensure_page : ⦃k : Kernel⦄ → Shm (Unit {0})
ensure_page = do shm ← get; page_if_none shm.pages

-- and finds an aligned slot, on a new page where the current one has no room.
slot_or_new_page : ⦃k : Kernel⦄ → ℕ → ℕ → Option ℕ → Shm ℕ
slot_or_new_page size align (some p) = pure p
slot_or_new_page size align none = do
  create_new_page
  shm ← get
  unwrap (get_aligned_free_pointer shm size align)

pub reserve : ⦃k : Kernel⦄ → ℕ → ℕ → Shm ℕ
reserve size align = do
  ensure_page
  shm ← get
  slot_or_new_page size align (get_aligned_free_pointer shm size align)

-- The part of `construct_in_shm` that follows: the slot is taken, the value is built in it by
-- `placement_constructor`, foreign code that is handed the address, and the name is registered.
place : ⦃k : Kernel⦄ → ShmType → (ℕ → Call) → String → ℕ → Shm ClientResourceLocation
place T placement_constructor name aligned_free_ptr = do
  modify (λ shm. record shm { free_ptr = aligned_free_ptr + T.size })
  shm ← get
  page ← unwrap (last? shm.pages)
  call (placement_constructor (page.mem + aligned_free_ptr))
  let index = length shm.pages - 1
  put (record shm {
    resources =
        insert name
          (record { type_id = T.uuid; page = index; offset = aligned_free_ptr; destructor = T })
          shm.resources;
  })
  pure (record { page = index; offset = aligned_free_ptr; fd = page.fd })

pub construct_in_shm : ⦃k : Kernel⦄ → ShmType → (ℕ → Call) → String → Shm ClientResourceLocation
construct_in_shm T placement_constructor name = do
  shm ← get
  fail_if (contains_key name shm.resources) (runtime (resource_name_already_in_use name))
  fail_if (ltb shm.page_size T.size) (runtime (resource_too_large_for_page shm.page_size T.size))
  fail_if (ltb shm.page_size T.align)
      (runtime (resource_alignment_larger_than_page shm.page_size T.align))
  aligned_free_ptr ← reserve T.size T.align
  place T placement_constructor name aligned_free_ptr

-- A resource of the right type, with the descriptor of its page. An index out of the pages is a
-- panic.
locate : ShmType → ResourceMetadata → Shm (Option ClientResourceLocation)
locate T r = do
  fail_if (not (r.type_id == T.uuid))
      (runtime (resource_type_mismatch T.name "<unavailable at runtime>"))
  shm ← get
  page ← unwrap (get_elem? shm.pages r.page)
  pure (some (record { page = r.page; offset = r.offset; fd = page.fd }))

locate_if_known : ShmType → Option ResourceMetadata → Shm (Option ClientResourceLocation)
locate_if_known T none = pure none
locate_if_known T (some r) = locate T r

unfoldable pub find_resource : ShmType → String → Shm (Option ClientResourceLocation)
unfolding locate_if_known locate
find_resource T name = do shm ← get; locate_if_known T (lookup name shm.resources)

-- One destructor under `catch_unwind`: whether it panicked, as indexing does out of range.
destruct_in : ⦃k : Kernel⦄ {E : Type 0} → Option Page → ResourceMetadata → Io ShmAllocator E Bool
destruct_in none r = pure true
destruct_in (some p) r =
    or_else (do call (Call.destruct (p.mem + r.offset)); pure false) (λ _. pure true)

destroy : ⦃k : Kernel⦄ {E : Type 0} → List Page → ResourceMetadata → Io ShmAllocator E Bool
destroy pages r = destruct_in (get_elem? pages r.page) r

pub destroy_all :
    ⦃k : Kernel⦄ {E : Type 0} → List Page → Dict ResourceMetadata → Io ShmAllocator E Bool
destroy_all pages [] = pure false
destroy_all pages ((_, r) ∷ rs) = do
  panicked ← destroy pages r
  later ← destroy_all pages rs
  pure (panicked || later)

pub unmap_all : ⦃k : Kernel⦄ {E : Type 0} → ℕ → List Page → Io ShmAllocator E (Unit {0})
unmap_all size [] = pure tt
unmap_all size (p ∷ ps) = do
  or_else (do call (Call.munmap p.mem size); pure tt) (λ _. ignore Call.report_brittle)
  unmap_all size ps

pub close_all : ⦃k : Kernel⦄ {E : Type 0} → List Page → Io ShmAllocator E (Unit {0})
close_all [] = pure tt
close_all (p ∷ ps) = do ignore (Call.close p.fd); close_all ps

-- `Drop`, with the descriptors of the pages that the fields' own destructors close. `unwinding` is
-- `std::thread::panicking()`.
pub drop_allocator : ⦃k : Kernel⦄ {E : Type 0} → Bool → Io ShmAllocator E (Unit {0})
drop_allocator unwinding = do
  shm ← get
  put (record shm { resources = [] })
  panicked ← destroy_all shm.pages shm.resources
  unmap_all shm.page_size shm.pages
  if panicked && unwinding then ignore Call.report_brittle else pure tt
  close_all shm.pages
  put (record shm { resources = []; pages = [] })
  if panicked && not unwinding then panics else pure tt

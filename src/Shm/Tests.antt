-- ===== src/Shm/Tests.antt =====
-- The allocator: src/linux/shm_allocator.rs at a page of 4096 bytes.
use garnd.Prelude.{false, ◌≡◌, ◌≢◌, refl, some, [], ◌∷◌, String, arith, lookup, contains_key}
use garnd.Io.{Call, ok, Ensures}
use garnd.Io.Samples.{working}
use garnd.Shm.{
  create_new_page, ensure_page, page_if_none, sized_mapping, slot_or_new_page, reserve, place,
  aligned_up, ShmAllocator, ShmType, Page, get_aligned_free_pointer, construct_in_shm,
  find_resource, drop_allocator,
}
use garnd.Shm.Align.{IsLeastSlot, get_aligned_free_pointer-IsLeastSlot}
use garnd.Shm.Invariant.{IsValid}
use garnd.Shm.Reserve.{Extends}
use garnd.Shm.Construct.{Constructed, metadata, construct_in_shm-Constructed}
use garnd.Shm.Teardown.{TornDown, drop_allocator-TornDown}
use garnd.Shm.Lookup.{Finds, find_resource-Finds, find_resource-construct_in_shm}

abbrev mutex : ShmType
mutex = record { uuid = 7; size = 40; align = 8; name = "PthreadMutex" }

abbrev first_page : Page
first_page = record { fd = 3; mem = 65536 }

-- One page with the mutex "a" at 0, the next at 50 by another type.
abbrev used : ShmAllocator
used = record {
  resources = ("b", metadata mutex 0 48) ∷ ("a", metadata mutex 0 0) ∷ [];
  page_size = 4096;
  pages = first_page ∷ [];
  free_ptr = 90;
}

used-IsValid : IsValid used
used-IsValid = omega arith

get_aligned_free_pointer-IsLeastSlot_example :
    IsLeastSlot used 40 8 (get_aligned_free_pointer used 40 8)
get_aligned_free_pointer-IsLeastSlot_example =
    get_aligned_free_pointer-IsLeastSlot used 40 8 (omega arith) (omega arith) (omega arith)
      (omega arith)

construct_in_shm-Constructed_example :
    Ensures
      (λ l s _. Constructed used mutex "c" l s)
      (λ _ s _. Extends used s)
      (construct_in_shm mutex Call.construct "c" used [])
construct_in_shm-Constructed_example =
    construct_in_shm-Constructed used mutex Call.construct "c" [] used-IsValid (omega arith)

find_resource-Finds_example :
    Finds used mutex (lookup "b" used.resources) (find_resource mutex "b" used []).0
    × ((find_resource mutex "b" used []).1 ≡ used)
    × ((find_resource mutex "b" used []).2 ≡ [])
find_resource-Finds_example = find_resource-Finds used mutex "b" [] used-IsValid

find_resource-construct_in_shm_example :
    Ensures
      (λ l s _.
        ((find_resource mutex "c" s []).0 ≡ ok (some l))
        × ((T' : ShmType) (j : String)
            → ◌≢◌ {A = String} "c" j
            → (find_resource T' j s []).0 ≡ (find_resource T' j used []).0))
      (λ _ s _.
        (T' : ShmType) (j : String) → (find_resource T' j s []).0 ≡ (find_resource T' j used []).0)
      (construct_in_shm mutex Call.construct "c" used [])
find_resource-construct_in_shm_example =
    find_resource-construct_in_shm used mutex Call.construct "c" [] [] used-IsValid (omega arith)

abbrev empty : ShmAllocator
empty = record { resources = []; page_size = 4096; pages = []; free_ptr = 0 }

-- The first mutex creates a page and lands at its start.
construct_first :
    (construct_in_shm mutex Call.construct "a" empty []).0
    ≡ ok (record { page = 0; offset = 0; fd = 3 })
unfolding construct_in_shm reserve ensure_page page_if_none create_new_page sized_mapping
    slot_or_new_page place get_aligned_free_pointer aligned_up contains_key
construct_first = refl

drop_allocator-TornDown_example : TornDown (Unit {0}) false used [] (drop_allocator false used [])
drop_allocator-TornDown_example = drop_allocator-TornDown (Unit {0}) false used [] used-IsValid

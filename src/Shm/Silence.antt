-- ===== src/Shm/Silence.antt =====
-- The allocator sends nothing to any client.
use garnd.Prelude.{ℕ, refl, Option, none, some, List, [], ◌∷◌, String, arith}
use garnd.Io.{Call, Log, Kernel, Silent}
use garnd.Shm.{
  ShmAllocator, ShmType, Page, sized_mapping, create_new_page, page_if_none, ensure_page,
  slot_or_new_page, reserve, place, construct_in_shm, find_resource, locate, locate_if_known,
}

module _ ⦃k : Kernel⦄ (client : ℕ) where
  sized_mapping-Silent :
      (fd : ℕ) (shm : ShmAllocator) (t : Log) → Silent client t (sized_mapping fd shm t)
  unfolding sized_mapping
  sized_mapping-Silent fd shm t = ground arith

  create_new_page-Silent : (shm : ShmAllocator) (t : Log) → Silent client t (create_new_page shm t)
  unfolding create_new_page
  create_new_page-Silent shm t = grind (arith, sized_mapping-Silent)

  page_if_none-Silent :
      (ps : List Page) (shm : ShmAllocator) (t : Log) → Silent client t (page_if_none ps shm t)
  unfolding page_if_none
  page_if_none-Silent [] shm t = create_new_page-Silent shm t
  page_if_none-Silent (p ∷ ps) shm t = refl

  slot_or_new_page-Silent :
      (size align : ℕ) (o : Option ℕ) (shm : ShmAllocator) (t : Log)
      → Silent client t (slot_or_new_page size align o shm t)
  unfolding slot_or_new_page
  slot_or_new_page-Silent size align (some p) shm t = refl
  slot_or_new_page-Silent size align none shm t = grind (arith, create_new_page-Silent)

  reserve-Silent :
      (size align : ℕ) (shm : ShmAllocator) (t : Log) → Silent client t (reserve size align shm t)
  unfolding reserve ensure_page
  reserve-Silent size align shm t = grind (arith, page_if_none-Silent, slot_or_new_page-Silent)

  place-Silent :
      (T : ShmType) (name : String) (p : ℕ) (shm : ShmAllocator) (t : Log)
      → Silent client t (place T Call.construct name p shm t)
  unfolding place
  place-Silent T name p shm t = ground arith

  pub construct_in_shm-Silent :
      (T : ShmType) (name : String) (shm : ShmAllocator) (t : Log)
      → Silent client t (construct_in_shm T Call.construct name shm t)
  unfolding construct_in_shm
  construct_in_shm-Silent T name shm t = grind (arith, reserve-Silent, place-Silent)

pub find_resource-Silent :
    (client : ℕ) (T : ShmType) (name : String) (shm : ShmAllocator) (t : Log)
    → Silent client t (find_resource T name shm t)
unfolding find_resource locate locate_if_known
find_resource-Silent client T name shm t = ground arith

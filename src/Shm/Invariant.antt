-- ===== src/Shm/Invariant.antt =====
-- The invariant of the allocator: every resource lies inside a page, aligned, below the free pointer
-- where the page is the current one, and no two resources overlap.
use garnd.Prelude.{
  ℕ, ◌+◌, ◌%◌, ◌≤◌, ◌<◌, ◌≡◌, ◌≢◌, ◌⊎◌, String, [], ◌∷◌, arith, length, Dict, remove,
}
use garnd.Shm.{ShmAllocator, ResourceMetadata}
use garnd.Shm.Align.{max_page_size}

-- `n` pages of `size` bytes, the last one filled up to `free`.
pub record IsPlaced (n free size : ℕ) (r : ResourceMetadata) : Type 0 where
  pub in_pages : r.page < n
  pub in_page : r.offset + r.destructor.size ≤ size
  pub in_use : r.page + 1 ≡ n → r.offset + r.destructor.size ≤ free
  pub aligned : r.offset % r.destructor.align ≡ 0
  pub typed : r.type_id ≡ r.destructor.uuid

abbrev pub Apart : ResourceMetadata → ResourceMetadata → Type 0
Apart r q =
    (r.page ≢ q.page)
    ⊎ (r.offset + r.destructor.size ≤ q.offset)
    ⊎ (q.offset + q.destructor.size ≤ r.offset)

abbrev pub AllPlaced : ℕ → ℕ → ℕ → Dict ResourceMetadata → Type 0
AllPlaced n free size [] = Unit
AllPlaced n free size ((_, r) ∷ m) = IsPlaced n free size r × AllPlaced n free size m

abbrev pub ApartFrom : ResourceMetadata → Dict ResourceMetadata → Type 0
ApartFrom r [] = Unit
ApartFrom r ((_, q) ∷ m) = Apart r q × ApartFrom r m

abbrev pub AllApart : Dict ResourceMetadata → Type 0
AllApart [] = Unit
AllApart ((_, r) ∷ m) = ApartFrom r m × AllApart m

pub record IsValid (shm : ShmAllocator) : Type 0 where
  pub positive : 0 < shm.page_size
  pub small : shm.page_size ≤ max_page_size
  pub free : shm.free_ptr ≤ shm.page_size
  pub placed : AllPlaced (length shm.pages) shm.free_ptr shm.page_size shm.resources
  pub apart : AllApart shm.resources

pub placed_grow :
    (n free free' size : ℕ) (m : Dict ResourceMetadata)
    → free ≤ free'
    → AllPlaced n free size m
    → AllPlaced n free' size m
placed_grow n free free' size [] le h = tt
placed_grow n free free' size ((_, r) ∷ m) le h =
    (ground arith, placed_grow n free free' size m le h.1)

pub placed_new_page :
    (n free size : ℕ) (m : Dict ResourceMetadata)
    → AllPlaced n free size m
    → AllPlaced (n + 1) 0 size m
placed_new_page n free size [] h = tt
placed_new_page n free size ((_, r) ∷ m) h = (ground arith, placed_new_page n free size m h.1)

pub placed-remove :
    (k : String) (n free size : ℕ) (m : Dict ResourceMetadata)
    → AllPlaced n free size m
    → AllPlaced n free size (remove k m)
unfolding remove
placed-remove k n free size [] h = tt
placed-remove k n free size ((_, r) ∷ m) h = ground (arith, placed-remove k n free size m h.1)

pub ApartFrom-remove :
    (k : String) (r : ResourceMetadata) (m : Dict ResourceMetadata)
    → ApartFrom r m
    → ApartFrom r (remove k m)
unfolding remove
ApartFrom-remove k r [] h = tt
ApartFrom-remove k r ((_, q) ∷ m) h = ground (arith, ApartFrom-remove k r m h.1)

pub apart-remove : (k : String) (m : Dict ResourceMetadata) → AllApart m → AllApart (remove k m)
unfolding remove
apart-remove k [] h = tt
apart-remove k ((_, q) ∷ m) h = ground (arith, apart-remove k m h.1, ApartFrom-remove k q m h.0)

-- What stands from the free pointer of the last page on is apart from everything placed.
pub ApartFrom-placed :
    (n free size : ℕ) (r : ResourceMetadata) (m : Dict ResourceMetadata)
    → r.page + 1 ≡ n
    → free ≤ r.offset
    → AllPlaced n free size m
    → ApartFrom r m
ApartFrom-placed n free size r [] e le h = tt
ApartFrom-placed n free size r ((_, q) ∷ m) e le h =
    (ground arith, ApartFrom-placed n free size r m e le h.1)

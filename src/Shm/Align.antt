-- ===== src/Shm/Align.antt =====
-- `get_aligned_free_pointer` against its specification: the least aligned offset from the free
-- pointer on.
use garnd.Prelude.{
  ℕ, ◌+◌, ◌-◌, ◌%◌, ◌^◌, ◌≤◌, ◌<◌, ◌≡◌, ◌≢◌, inl, inr, Option, none, some, arith, ltb, Bool-cases,
}
use native.Mathlib.Nat.{mod-lt}
use garnd.Shm.{ShmAllocator, aligned_up, get_aligned_free_pointer}

-- Pages and the offsets in them are far below the range of `usize`.
abbrev pub max_page_size : ℕ
max_page_size = 2 ^ 61

pub record IsSlot (shm : ShmAllocator) (size align p : ℕ) : Type 0 where
  pub free : shm.free_ptr ≤ p
  pub aligned : p % align ≡ 0
  pub within : p + size ≤ shm.page_size

abbrev pub IsLeastSlot : ShmAllocator → ℕ → ℕ → Option ℕ → Type 0
IsLeastSlot shm size align (some p) =
    IsSlot shm size align p × ((q : ℕ) → IsSlot shm size align q → p ≤ q)
IsLeastSlot shm size align none = (q : ℕ) → ¬ IsSlot shm size align q

round_up-mod : (f a : ℕ) → 0 < a → (f + (a - f % a)) % a ≡ 0
round_up-mod f a h = grind (arith, mod-lt)

round_up_least : (f a q : ℕ) → 0 < a → f % a ≢ 0 → f ≤ q → q % a ≡ 0 → f + (a - f % a) ≤ q
round_up_least f a q h ne le e = grind arith

module _ (f a : ℕ) (positive : 0 < a) (small : a ≤ max_page_size) (low : f ≤ max_page_size) where
  aligned_up-mod : aligned_up f a % a ≡ 0
  unfolding aligned_up
  aligned_up-mod = ground (arith, round_up-mod f a positive)

  aligned_up_bounds : (f ≤ aligned_up f a) × (aligned_up f a < f + a)
  unfolding aligned_up
  aligned_up_bounds = ground arith

  aligned_up_least : (q : ℕ) → f ≤ q → q % a ≡ 0 → aligned_up f a ≤ q
  unfolding aligned_up
  aligned_up_least q le e = ground (arith, round_up_least f a q positive)

-- At an alignment above zero, with the sizes below 2 ^ 61, the pointer returned is the least offset
-- from the free pointer on that is aligned and leaves room for the size in the page; none is
-- returned only if there is no such offset.
pub get_aligned_free_pointer-IsLeastSlot :
    (shm : ShmAllocator) (size align : ℕ)
    → 0 < align
    → align ≤ max_page_size
    → size ≤ max_page_size
    → shm.free_ptr ≤ max_page_size
    → IsLeastSlot shm size align (get_aligned_free_pointer shm size align)
unfolding get_aligned_free_pointer
get_aligned_free_pointer-IsLeastSlot shm size align pos ha hs hf =
    elim (Bool-cases (ltb shm.page_size ((aligned_up shm.free_ptr align + size) % 2 ^ 64))) [
      | inl full ↦ rw full λ q slot. absurd (ground (arith, bounds, least q slot.free slot.aligned))
      | inr fits ↦ rw fits (
        record { free = bounds.0; aligned = rounded; within = ground (arith, bounds) },
        λ q slot. least q slot.free slot.aligned,
      )
    ]
  where
    rounded : aligned_up shm.free_ptr align % align ≡ 0
    rounded = aligned_up-mod shm.free_ptr align pos ha hf

    bounds :
        (shm.free_ptr ≤ aligned_up shm.free_ptr align)
        × (aligned_up shm.free_ptr align < shm.free_ptr + align)
    bounds = aligned_up_bounds shm.free_ptr align pos ha hf

    least : (q : ℕ) → shm.free_ptr ≤ q → q % align ≡ 0 → aligned_up shm.free_ptr align ≤ q
    least = aligned_up_least shm.free_ptr align pos ha hf

-- ===== src/Shm/Reserve.antt =====
-- `create_new_page` and `reserve`: a slot of a valid allocator, found without a panic.
use garnd.Prelude.{
  ℕ, ◌≤◌, ◌<◌, ◌≡◌, refl, Option, none, some, List, [], ◌∷◌, ◌++◌, arith, length, length-append,
  sym,
}
use mathlib.Core.List.{append-nil, append_assoc}
use garnd.Errors.{DetailedError}
use garnd.Io.{
  unwrap, call, ignore, fail, or_else, ◌>>◌, Call, Log, Kernel, Ensures, resume-Ensures,
  Ensures-mono, recover-Ensures,
}
use garnd.Shm.{
  Shm, ShmAllocator, Page, get_aligned_free_pointer, sized_mapping, create_new_page, page_if_none,
  ensure_page, slot_or_new_page, reserve,
}
use native.Mathlib.Nat.{zero-mod}
use garnd.Shm.Align.{IsSlot, IsLeastSlot, get_aligned_free_pointer-IsLeastSlot}
use garnd.Shm.Invariant.{IsValid, placed_new_page}

-- `s` is `shm` with one more page, which is empty.
abbrev pub HasNewPage : ShmAllocator → ShmAllocator → Type 0
HasNewPage shm s = (p : Page) × (s ≡ record shm { free_ptr = 0; pages = shm.pages ++ p ∷ [] })

module _ ⦃k : Kernel⦄ (shm : ShmAllocator) where
  sized_mapping_keeps :
      (fd : ℕ) (t : Log)
      → 0 < shm.page_size
      → Ensures (λ _ s _. s ≡ shm) (λ _ s _. s ≡ shm) (sized_mapping fd shm t)
  unfolding sized_mapping
  sized_mapping_keeps fd t h = ground arith

  create_new_page_lem :
      (t : Log)
      → 0 < shm.page_size
      → Ensures (λ _ s _. HasNewPage shm s) (λ _ s _. s ≡ shm) (create_new_page shm t)
  unfolding create_new_page
  create_new_page_lem t h =
      resume-Ensures Keeps Keeps _ _ (call Call.memfd_create shm t) _ (ground arith)
        (λ fd s t' e.
          resume-Ensures Keeps Keeps _ _ (or_else (sized_mapping fd) (on_failure fd) s t') _
            (recover-Ensures Keeps Keeps _ _ (sized_mapping fd s t') (on_failure fd)
              (rw e (sized_mapping_keeps fd t' h)) (λ _ s _ e. e) (λ _ s _ e. e))
            (λ mem s t'' e. (record { fd = fd; mem = mem }, ground arith)) (λ _ s _ e. e))
        (λ _ s _ e. e)
    where
      Keeps : {A : Type 0} → A → ShmAllocator → Log → Type 0
      Keeps _ s _ = s ≡ shm

      on_failure : {A : Type 0} → ℕ → DetailedError → Shm A
      on_failure fd e = do ignore (Call.close fd); fail e

-- What stays and what may grow: the resources stay, pages are only added at the end.
pub record Extends (shm s : ShmAllocator) : Type 0 where
  pub same_resources : s.resources ≡ shm.resources
  pub same_page_size : s.page_size ≡ shm.page_size
  pub more_pages : (new : List Page) × (s.pages ≡ shm.pages ++ new)
  pub valid : IsValid s

pub Extends-refl : (shm : ShmAllocator) → IsValid shm → Extends shm shm
Extends-refl shm v = record {
  same_resources = refl;
  same_page_size = refl;
  more_pages = ([], sym (append-nil shm.pages));
  valid = v;
}

new_page-IsValid : (shm s : ShmAllocator) → IsValid shm → HasNewPage shm s → IsValid s
new_page-IsValid shm s v (p, e) = rw e (record {
  positive = v.positive;
  small = v.small;
  free = omega arith;
  placed =
      rw (length-append shm.pages (p ∷ []))
        (placed_new_page (length shm.pages) shm.free_ptr shm.page_size shm.resources v.placed);
  apart = v.apart;
})

Extends-new_page : (shm s s' : ShmAllocator) → Extends shm s → HasNewPage s s' → Extends shm s'
Extends-new_page shm s s' x n = record {
  same_resources = ground (arith, n.1, x.same_resources);
  same_page_size = ground (arith, n.1, x.same_page_size);
  more_pages = (x.more_pages.0 ++ n.0 ∷ [], simp (n.1, x.more_pages.1, append_assoc));
  valid = new_page-IsValid s s' x.valid n;
}

abbrev HasPage : ShmAllocator → Type 0
HasPage s = 0 < length s.pages

HasPage-new_page : (shm s : ShmAllocator) → HasNewPage shm s → HasPage s
HasPage-new_page shm s (p, e) = rw e (omega (arith, length-append shm.pages (p ∷ [])))

module _ ⦃k : Kernel⦄ (shm : ShmAllocator) (v : IsValid shm) where
  page_if_none_lem :
      (ps : List Page) (t : Log)
      → shm.pages ≡ ps
      → Ensures
          (λ _ s _. Extends shm s × HasPage s)
          (λ _ s _. Extends shm s)
          (page_if_none ps shm t)
  unfolding page_if_none
  page_if_none_lem [] t e =
      Ensures-mono (λ _ s _. HasNewPage shm s) (λ _ s _. s ≡ shm) _ _ (create_new_page shm t)
        (create_new_page_lem shm t v.positive)
        (λ _ s _ n. (Extends-new_page shm shm s (Extends-refl shm v) n, HasPage-new_page shm s n))
        (λ _ s _ e. rw e (Extends-refl shm v))
  page_if_none_lem (p ∷ ps) t e = (Extends-refl shm v, ground arith)

  ensure_page_lem :
      (t : Log)
      → Ensures (λ _ s _. Extends shm s × HasPage s) (λ _ s _. Extends shm s) (ensure_page shm t)
  unfolding ensure_page
  ensure_page_lem t = page_if_none_lem shm.pages t refl

-- The slot lies in the current page, at or after the free pointer.
pub record Reserved (shm : ShmAllocator) (size align p : ℕ) (s : ShmAllocator) : Type 0 where
  pub extends : Extends shm s
  pub has_page : HasPage s
  pub slot : IsSlot s size align p

module _ (shm : ShmAllocator) (size align : ℕ) (positive : 0 < align) where
  least_slot :
      (s : ShmAllocator)
      → IsValid s
      → size ≤ s.page_size
      → align ≤ s.page_size
      → IsLeastSlot s size align (get_aligned_free_pointer s size align)
  least_slot s v fits aligns =
      get_aligned_free_pointer-IsLeastSlot s size align positive (omega (arith, v.small))
        (omega (arith, v.small)) (omega (arith, v.small, v.free))

  -- The first slot of an empty page is always free, so `unwrap` does not panic.
  unwrap_slot_lem :
      (s : ShmAllocator) (t : Log) (o : Option ℕ)
      → Extends shm s
      → HasPage s
      → s.free_ptr ≡ 0
      → size ≤ s.page_size
      → IsLeastSlot s size align o
      → Ensures
          (λ p s' _. Reserved shm size align p s')
          (λ _ s' _. Extends shm s')
          (unwrap {E = DetailedError} o s t)
  unwrap_slot_lem s t (some p) x has e fits h = record { extends = x; has_page = has; slot = h.0 }
  unwrap_slot_lem s t none x has e fits h =
      absurd (h 0 (record { free = omega arith; aligned = zero-mod align; within = omega arith }))

  slot_or_new_page_lem :
      ⦃k : Kernel⦄ (s : ShmAllocator) (t : Log) (o : Option ℕ)
      → Extends shm s
      → HasPage s
      → size ≤ s.page_size
      → align ≤ s.page_size
      → IsLeastSlot s size align o
      → Ensures
          (λ p s' _. Reserved shm size align p s')
          (λ _ s' _. Extends shm s')
          (slot_or_new_page size align o s t)
  unfolding slot_or_new_page
  slot_or_new_page_lem s t (some p) x has fits aligns h = record {
    extends = x;
    has_page = has;
    slot = h.0;
  }
  slot_or_new_page_lem s t none x has fits aligns h =
      resume-Ensures (λ _ s' _. HasNewPage s s') (λ _ s' _. s' ≡ s) _ _ (create_new_page s t) _
        (create_new_page_lem s t x.valid.positive)
        (λ _ s' t' n.
          let x' : Extends shm s' = Extends-new_page shm s s' x n in
          let f : s'.page_size ≡ s.page_size = ground (arith, n.1) in
          unwrap_slot_lem s' t' (get_aligned_free_pointer s' size align) x'
            (HasPage-new_page s s' n) (ground (arith, n.1)) (omega arith)
            (least_slot s' x'.valid (omega arith) (omega arith)))
        (λ _ s' _ e. rw e x)

  pub reserve-Reserved :
      ⦃k : Kernel⦄ (t : Log)
      → IsValid shm
      → size ≤ shm.page_size
      → align ≤ shm.page_size
      → Ensures
          (λ p s _. Reserved shm size align p s)
          (λ _ s _. Extends shm s)
          (reserve size align shm t)
  unfolding reserve
  reserve-Reserved t v fits aligns =
      resume-Ensures (λ _ s _. Extends shm s × HasPage s) (λ _ s _. Extends shm s) _ _
        (ensure_page shm t) _ (ensure_page_lem shm v t)
        (λ _ s t' (x, has).
          let e : s.page_size ≡ shm.page_size = x.same_page_size in
          slot_or_new_page_lem s t' (get_aligned_free_pointer s size align) x has (omega arith)
            (omega arith) (least_slot s x.valid (omega arith) (omega arith)))
        (λ _ s _ x. x)

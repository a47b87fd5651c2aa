-- ===== src/Shm/Quiet.antt =====
-- Dropping an allocator whose destructors do not panic.
use garnd.Shm
use garnd.Prelude.Int.{ℤ, pos, negsuc}
use garnd.Shm.Align.{max_page_size}
use garnd.Prelude.{
  ◌≤◌, arith, ℕ, ◌≡◌, refl, false, Option, none, some, List, [], ◌∷◌, Dict, length,
  get_elem?-in_range,
}
use garnd.Io.{
  Call, Reply, done, Log, Kernel, Ensures, resume-Ensures, resume, outcome_of, failed, pure, ◌>>=◌,
}
use garnd.Shm.{
  ShmAllocator, checked_page_size, Page, ResourceMetadata, destruct_in, destroy, destroy_all,
  unmap_all, close_all, drop_allocator,
}
use garnd.Shm.Invariant.{IsValid, AllPlaced}
use garnd.Shm.Destroying.{
  given_up, crashed, onto, unmappings, closings, unmap_all_lem, close_all_lem,
}

-- The destructors of the objects in shared memory do not panic.
abbrev pub Destructs : Kernel → Type 0
Destructs k = (t : Log) (a : ℕ) → (n : ℕ) × (k.answer t (Call.destruct a) ≡ done n)

-- The page size is one that the allocator can work with, where the system tells it.
pub record PageSize (k : Kernel) : Type 0 where
  pub small : (t : Log) (n : ℕ) → k.page_size t ≡ done (some (pos n)) → n ≤ max_page_size
  pub positive : (t : Log) (n : ℕ) → ¬ (k.page_size t ≡ done (some (negsuc n)))

-- A new allocator is valid.
pub new-IsValid :
    ⦃k : Kernel⦄ (sizes : PageSize k) (S : Type 0) (s : S) (t : Log)
    → Ensures (λ shm _ _. IsValid shm) (λ _ _ _. Unit {0}) (Shm.new s t)
unfolding Shm.new checked_page_size
new-IsValid ⦃k⦄ sizes S s t = made (k.page_size t) refl
  where
    made :
        (r : Reply (Option ℤ))
        → k.page_size t ≡ r
        → Ensures
            (λ shm _ _. IsValid shm)
            (λ _ _ _. Unit {0})
            (resume {S = S}
              (outcome_of r, s, t)
              (λ answer. checked_page_size answer >>= λ page_size.
                pure (record { resources = []; page_size = page_size; pages = []; free_ptr = 0 })))
    made (failed n) e = tt
    made (done none) e = tt
    made (done (some (negsuc n))) e = sizes.positive t n e
    made (done (some (pos n))) e = ground (arith, sizes.small t n e)

module _ ⦃k : Kernel⦄ (destructs : Destructs k) (E : Type 0) where
  destruct_in_quiet :
      (p : Page) (r : ResourceMetadata) (shm : ShmAllocator) (t : Log)
      → Ensures {E = E}
          (λ b s _. (b ≡ false) × (s ≡ shm))
          (λ _ _ _. ⊥)
          (destruct_in (some p) r shm t)
  unfolding destruct_in
  destruct_in_quiet p r shm t = rw (destructs t _).1 (refl, refl)

  destroy_all_quiet :
      (free size : ℕ) (pages : List Page) (m : Dict ResourceMetadata) (shm : ShmAllocator) (t : Log)
      → AllPlaced (length pages) free size m
      → Ensures {E = E} (λ b s _. (b ≡ false) × (s ≡ shm)) (λ _ _ _. ⊥) (destroy_all pages m shm t)
  unfolding destroy_all destroy
  destroy_all_quiet free size pages [] shm t h = (refl, refl)
  destroy_all_quiet free size pages ((_, r) ∷ m) shm t h =
      let (p, e) = get_elem?-in_range pages r.page h.0.in_pages in
      rw e (
        resume-Ensures (λ b s _. (b ≡ false) × (s ≡ shm)) (λ _ _ _. ⊥) _ _
          (destruct_in (some p) r shm t) _ (destruct_in_quiet p r shm t)
          (λ b s u (well, same).
            rw (well, same)
              (resume-Ensures (λ b' s' _. (b' ≡ false) × (s' ≡ shm)) (λ _ _ _. ⊥) _ _
                (destroy_all pages m shm u) _ (destroy_all_quiet free size pages m shm u h.1)
                (λ b' s' v (well', same'). (well', same')) (λ _ _ _ x. x)))
          (λ _ _ _ x. x))

  pub drop_allocator_quiet :
      (shm : ShmAllocator) (t : Log)
      → IsValid shm
      → Ensures {E = E} (λ _ _ _. Unit) (λ _ _ _. ⊥) (drop_allocator false shm t)
  unfolding drop_allocator
  drop_allocator_quiet shm t valid =
      resume-Ensures (λ b s _. (b ≡ false) × (s ≡ record shm { resources = [] })) (λ _ _ _. ⊥) _ _ _
        _
        (destroy_all_quiet shm.free_ptr shm.page_size shm.pages shm.resources
          (record shm { resources = [] }) t valid.placed)
        (λ b s u (well, _). rw well (
          resume-Ensures
            (λ _ s' v.
              (s' ≡ s)
              × (given_up v ≡ onto (unmappings shm.page_size shm.pages) (given_up u))
              × (crashed v ≡ crashed u))
            (λ _ _ _. ⊥) _ _ _ _ (unmap_all_lem E shm.page_size shm.pages s u)
            (λ _ s' v _.
              resume-Ensures
                (λ _ s'' w.
                  (s'' ≡ s')
                  × (given_up w ≡ onto (closings shm.pages) (given_up v))
                  × (crashed w ≡ crashed v))
                (λ _ _ _. ⊥) _ _ _ _ (close_all_lem E shm.pages s' v) (λ _ _ _ _. tt)
                (λ _ _ _ x. x))
            (λ _ _ _ x. x)))
        (λ _ _ _ x. x)

-- ===== src/Shm/Forward.antt =====
-- Dropping an allocator only adds to the log.
use garnd.Prelude.{
  ℕ, Bool, true, false, ◌&&◌, not, Option, none, some, List, [], ◌∷◌, Dict, get_elem?,
  if◌then◌else◌,
}
use garnd.Io.{
  Call, Kernel, Io, Grows, Grows-resume, Grows-recover, call-Grows, ignore-Grows, pure-Grows,
  get-Grows, put-Grows, panics-Grows,
}
use garnd.Shm.{
  ShmAllocator, Page, ResourceMetadata, destruct_in, destroy, destroy_all, unmap_all, close_all,
  drop_allocator,
}

module _ ⦃k : Kernel⦄ {E : Type 0} where
  destruct_in-Grows : (o : Option Page) (r : ResourceMetadata) → Grows {E = E} (destruct_in o r)
  unfolding destruct_in
  destruct_in-Grows none r = pure-Grows true
  destruct_in-Grows (some p) r =
      Grows-recover _ _ (Grows-resume _ _ (call-Grows _) (λ _. pure-Grows false))
        (λ _. pure-Grows true)

  destroy_all-Grows :
      (pages : List Page) (m : Dict ResourceMetadata) → Grows {E = E} (destroy_all pages m)
  unfolding destroy_all destroy
  destroy_all-Grows pages [] = pure-Grows false
  destroy_all-Grows pages ((_, r) ∷ m) =
      Grows-resume _ _ (destruct_in-Grows (get_elem? pages r.page) r)
        (λ _. Grows-resume _ _ (destroy_all-Grows pages m) (λ _. pure-Grows _))

  unmap_all-Grows : (size : ℕ) (ps : List Page) → Grows {E = E} (unmap_all size ps)
  unfolding unmap_all
  unmap_all-Grows size [] = pure-Grows tt
  unmap_all-Grows size (p ∷ ps) =
      Grows-resume _ _
        (Grows-recover _ _ (Grows-resume _ _ (call-Grows _) (λ _. pure-Grows tt))
          (λ _. ignore-Grows _))
        (λ _. unmap_all-Grows size ps)

  close_all-Grows : (ps : List Page) → Grows {E = E} (close_all ps)
  unfolding close_all
  close_all-Grows [] = pure-Grows tt
  close_all-Grows (p ∷ ps) = Grows-resume _ _ (ignore-Grows _) (λ _. close_all-Grows ps)

  if-Grows :
      (b : Bool) (m n : Io ShmAllocator E (Unit {0}))
      → Grows m
      → Grows n
      → Grows (if b then m else n)
  if-Grows true m n h h' = h
  if-Grows false m n h h' = h'

  pub drop_allocator-Grows : (b : Bool) → Grows {E = E} (drop_allocator b)
  unfolding drop_allocator
  drop_allocator-Grows b = Grows-resume _ _ get-Grows (λ shm. Grows-resume _ _ (put-Grows _) (λ _.
      Grows-resume _ _ (destroy_all-Grows shm.pages shm.resources) (λ panicked.
        Grows-resume _ _ (unmap_all-Grows shm.page_size shm.pages) (λ _.
          Grows-resume _ _
            (if-Grows (panicked && b) _ _ (ignore-Grows Call.report_brittle) (pure-Grows tt))
            (λ _. Grows-resume _ _ (close_all-Grows shm.pages) (λ _.
              Grows-resume _ _ (put-Grows (record shm { resources = []; pages = [] }))
                (λ _. if-Grows (panicked && not b) _ _ panics-Grows (pure-Grows tt))))))))

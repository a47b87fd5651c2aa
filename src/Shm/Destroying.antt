-- ===== src/Shm/Destroying.antt =====
-- The parts of an allocator's end: destructors, mappings, descriptors.
use garnd.Prelude.{
  ℕ, ◌+◌, ◌≡◌, ◌<◌, refl, ◌⊎◌, inl, inr, Bool, true, false, ◌||◌, Option, none, some, List, [], ◌∷◌,
  arith, Dict, length, get_elem?, get_elem?-in_range, ap, ◌∙◌,
}
use garnd.Io.{Call, done, failed, Log, Kernel, Ensures, resume-Ensures, Reply-cases}
use garnd.Shm.{
  ShmAllocator, Page, ResourceMetadata, destruct_in, destroy, destroy_all, unmap_all, close_all,
}
use garnd.Shm.Invariant.{AllPlaced}

-- The calls of a log that give something up, newest first.
abbrev pub given_up : Log → List Call
given_up [] = []
given_up ((Call.destruct a, _) ∷ t) = Call.destruct a ∷ given_up t
given_up ((Call.munmap a n, _) ∷ t) = Call.munmap a n ∷ given_up t
given_up ((Call.close fd, _) ∷ t) = Call.close fd ∷ given_up t
given_up (_ ∷ t) = given_up t

-- How many destructors have panicked.
abbrev pub crashed : Log → ℕ
crashed [] = 0
crashed ((Call.destruct _, failed _) ∷ t) = crashed t + 1
crashed (_ ∷ t) = crashed t

-- One call after another, before a log.
abbrev pub onto : List Call → List Call → List Call
onto [] t = t
onto (c ∷ cs) t = onto cs (c ∷ t)

abbrev pub in_page : Option Page → ℕ → ℕ
in_page none offset = offset
in_page (some p) offset = p.mem + offset

abbrev pub destructions : List Page → Dict ResourceMetadata → List Call
destructions pages [] = []
destructions pages ((_, r) ∷ m) =
    Call.destruct (in_page (get_elem? pages r.page) r.offset) ∷ destructions pages m

abbrev pub unmappings : ℕ → List Page → List Call
unmappings size [] = []
unmappings size (p ∷ ps) = Call.munmap p.mem size ∷ unmappings size ps

abbrev pub closings : List Page → List Call
closings [] = []
closings (p ∷ ps) = Call.close p.fd ∷ closings ps

abbrev pub Panicked : Bool → Log → Log → Type 0
Panicked b t u = ((b ≡ false) × (crashed u ≡ crashed t)) ⊎ ((b ≡ true) × (crashed t < crashed u))

either : (b b' : Bool) (t u v : Log) → Panicked b t u → Panicked b' u v → Panicked (b || b') t v
either b b' t u v first later = ground (arith, first, later)

module _ ⦃k : Kernel⦄ where
  destruct_in_lem :
      (E : Type 0) (p : Page) (r : ResourceMetadata) (shm : ShmAllocator) (t : Log)
      → Ensures {E = E}
          (λ b s u.
            (s ≡ shm)
            × (given_up u ≡ Call.destruct (p.mem + r.offset) ∷ given_up t)
            × Panicked b t u)
          (λ _ _ _. ⊥)
          (destruct_in (some p) r shm t)
  unfolding destruct_in
  destruct_in_lem E p r shm t = elim (Reply-cases (k.answer t (Call.destruct (p.mem + r.offset)))) [
    | inl (n, e) ↦ rw e (refl, refl, inl (refl, refl))
    | inr (n, e) ↦ rw e (refl, refl, inr (refl, omega arith))
  ]

  destroy_lem :
      (E : Type 0) (pages : List Page) (r : ResourceMetadata) (shm : ShmAllocator) (t : Log)
      → r.page < length pages
      → Ensures {E = E}
          (λ b s u.
            (s ≡ shm)
            × (given_up u ≡ Call.destruct (in_page (get_elem? pages r.page) r.offset) ∷ given_up t)
            × Panicked b t u)
          (λ _ _ _. ⊥)
          (destroy pages r shm t)
  unfolding destroy
  destroy_lem E pages r shm t h =
      let (p, e) = get_elem?-in_range pages r.page h in rw e (destruct_in_lem E p r shm t)

  pub destroy_all_lem :
      (E : Type 0) (n free size : ℕ) (pages : List Page) (m : Dict ResourceMetadata)
      (shm : ShmAllocator) (t : Log)
      → AllPlaced (length pages) free size m
      → Ensures {E = E}
          (λ b s u.
            (s ≡ shm) × (given_up u ≡ onto (destructions pages m) (given_up t)) × Panicked b t u)
          (λ _ _ _. ⊥)
          (destroy_all pages m shm t)
  unfolding destroy_all
  destroy_all_lem E n free size pages [] shm t h = (refl, refl, inl (refl, refl))
  destroy_all_lem E n free size pages ((_, r) ∷ m) shm t h =
      resume-Ensures
        (λ b s u.
          (s ≡ shm)
          × (given_up u ≡ Call.destruct (in_page (get_elem? pages r.page) r.offset) ∷ given_up t)
          × Panicked b t u)
        (λ _ _ _. ⊥) _ _ _ _ (destroy_lem E pages r shm t h.0.in_pages)
        (λ b s u (same, gone, first). rw same (
          resume-Ensures
            (λ b' s' v.
              (s' ≡ shm)
              × (given_up v ≡ onto (destructions pages m) (given_up u))
              × Panicked b' u v)
            (λ _ _ _. ⊥) _ _ _ _ (destroy_all_lem E n free size pages m shm u h.1)
            (λ b' s' v (same', gone', later).
              (same', gone' ∙ ap (onto (destructions pages m)) gone, either b b' t u v first later))
            (λ _ _ _ x. x)))
        (λ _ _ _ x. x)

  pub unmap_all_lem :
      (E : Type 0) (size : ℕ) (ps : List Page) (shm : ShmAllocator) (t : Log)
      → Ensures {E = E}
          (λ _ s u.
            (s ≡ shm)
            × (given_up u ≡ onto (unmappings size ps) (given_up t))
            × (crashed u ≡ crashed t))
          (λ _ _ _. ⊥)
          (unmap_all size ps shm t)
  unfolding unmap_all
  unmap_all_lem E size [] shm t = (refl, refl, refl)
  unmap_all_lem E size (p ∷ ps) shm t = elim (Reply-cases (k.answer t (Call.munmap p.mem size))) [
    | inl (n, e) ↦ rw e (unmap_all_lem E size ps shm ((Call.munmap p.mem size, done n) ∷ t))
    | inr (n, e) ↦ rw e (
        unmap_all_lem E size ps shm
          ((Call.report_brittle, _) ∷ (Call.munmap p.mem size, failed n) ∷ t))
  ]

  pub close_all_lem :
      (E : Type 0) (ps : List Page) (shm : ShmAllocator) (t : Log)
      → Ensures {E = E}
          (λ _ s u.
            (s ≡ shm) × (given_up u ≡ onto (closings ps) (given_up t)) × (crashed u ≡ crashed t))
          (λ _ _ _. ⊥)
          (close_all ps shm t)
  unfolding close_all
  close_all_lem E [] shm t = (refl, refl, refl)
  close_all_lem E (p ∷ ps) shm t =
      close_all_lem E ps shm ((Call.close p.fd, k.answer t (Call.close p.fd)) ∷ t)

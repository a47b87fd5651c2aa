-- ===== src/Shm/Teardown.antt =====
-- The end of an allocator: what is destroyed, unmapped and closed, in which order.
use garnd.Prelude.{
  ◌≡◌, refl, Bool, true, false, ◌||◌, ◌&&◌, not, List, [], arith, length, ap, ◌∙◌, ◌==◌,
  if◌then◌else◌,
}
use garnd.Io.{
  Call, Log, Kernel, Io, Outcome, ok, panic, Ensures, resume-returns, ignore, pure, panics,
}
use garnd.Shm.{ShmAllocator, destroy_all, unmap_all, close_all, drop_allocator}
use garnd.Shm.Invariant.{IsValid}
use garnd.Shm.Destroying.{
  given_up, crashed, onto, destructions, unmappings, closings, Panicked, destroy_all_lem,
  unmap_all_lem, close_all_lem,
}

-- An allocator's end, from its state and the log to its outcome: all objects are destroyed, then all
-- pages unmapped, then their descriptors closed; and a panic of a destructor is resumed, unless
-- the thread is unwinding.
pub record TornDown (E : Type 0) (unwinding : Bool) (shm : ShmAllocator) (t : Log)
    (x : Outcome E (Unit {0}) × ShmAllocator × Log) : Type 0 where
  pub outcome : x.0 ≡ (if unwinding || crashed x.2 == crashed t then ok tt else panic)
  pub empty : x.1 ≡ record shm { resources = []; pages = [] }
  pub order :
      given_up x.2
      ≡ onto (closings shm.pages) (
          onto
            (unmappings shm.page_size shm.pages)
            (onto (destructions shm.pages shm.resources) (given_up t)))

abbrev noted : ⦃k : Kernel⦄ {E : Type 0} → Bool → Bool → Io ShmAllocator E (Unit {0})
noted unwinding panicked = if panicked && unwinding then ignore Call.report_brittle else pure tt

noted_lem :
    ⦃k : Kernel⦄ (E : Type 0) (b panicked : Bool) (s : ShmAllocator) (t : Log)
    → Ensures {E = E}
        (λ _ s' u. (s' ≡ s) × (given_up u ≡ given_up t) × (crashed u ≡ crashed t))
        (λ _ _ _. ⊥)
        (noted b panicked s t)
noted_lem E true true s t = (refl, refl, refl)
noted_lem E true false s t = (refl, refl, refl)
noted_lem E false true s t = (refl, refl, refl)
noted_lem E false false s t = (refl, refl, refl)

-- With everything given up, whether the panic is resumed.
torn :
    (E : Type 0) (b panicked : Bool) (shm : ShmAllocator) (t v u : Log)
    → Panicked panicked t v
    → crashed u ≡ crashed v
    → given_up u
      ≡ onto (closings shm.pages) (
          onto
            (unmappings shm.page_size shm.pages)
            (onto (destructions shm.pages shm.resources) (given_up t)))
    → TornDown E b shm t (
        (if panicked && not b then panics else pure tt)
          (record shm { resources = []; pages = [] })
          u)
torn E true true shm t v u h e gone = record { outcome = refl; empty = refl; order = gone }
torn E true false shm t v u h e gone = record { outcome = refl; empty = refl; order = gone }
torn E false true shm t v u h e gone = record {
  outcome = ground (arith, h, e);
  empty = refl;
  order = gone;
}
torn E false false shm t v u h e gone = record {
  outcome = ground (arith, h, e);
  empty = refl;
  order = gone;
}

-- Of an allocator that satisfies the invariant, dropping it destroys every object once, then unmaps every
-- page once, then closes every page's descriptor once, and nothing else is destroyed, unmapped or
-- closed. It panics exactly if a destructor has panicked and the thread is not unwinding already, and
-- always leaves the allocator empty.
pub drop_allocator-TornDown :
    ⦃k : Kernel⦄ (E : Type 0) (unwinding : Bool) (shm : ShmAllocator) (t : Log)
    → IsValid shm
    → TornDown E unwinding shm t (drop_allocator unwinding shm t)
unfolding drop_allocator
drop_allocator-TornDown E unwinding shm t valid =
    resume-returns
      (λ b s u. (s ≡ drained) × (given_up u ≡ onto destructs (given_up t)) × Panicked b t u)
      (TornDown E unwinding shm t) (destroy_all shm.pages shm.resources drained t) _
      (destroy_all_lem E (length shm.pages) shm.free_ptr shm.page_size shm.pages shm.resources
        drained t valid.placed)
      (λ panicked s₁ t₁ (same₁, gone₁, how).
        resume-returns
          (λ _ s u. (s ≡ s₁) × (given_up u ≡ onto unmaps (given_up t₁)) × (crashed u ≡ crashed t₁))
          (TornDown E unwinding shm t) (unmap_all shm.page_size shm.pages s₁ t₁) _
          (unmap_all_lem E shm.page_size shm.pages s₁ t₁)
          (λ _ s₂ t₂ (same₂, gone₂, crashed₂).
            resume-returns
              (λ _ s u. (s ≡ s₂) × (given_up u ≡ given_up t₂) × (crashed u ≡ crashed t₂))
              (TornDown E unwinding shm t) (noted unwinding panicked s₂ t₂) _
              (noted_lem E unwinding panicked s₂ t₂)
              (λ _ s₃ t₃ (same₃, gone₃, crashed₃).
                resume-returns
                  (λ _ s u.
                    (s ≡ s₃)
                    × (given_up u ≡ onto (closings shm.pages) (given_up t₃))
                    × (crashed u ≡ crashed t₃))
                  (TornDown E unwinding shm t) (close_all shm.pages s₃ t₃) _
                  (close_all_lem E shm.pages s₃ t₃)
                  (λ _ s₄ t₄ (_, gone₄, crashed₄).
                    torn E unwinding panicked shm t t₁ t₄ how (crashed₄ ∙ crashed₃ ∙ crashed₂) (
                      gone₄
                      ∙ ap (onto (closings shm.pages)) (gone₃ ∙ gone₂ ∙ ap (onto unmaps) gone₁))))))
  where
    drained : ShmAllocator
    drained = record shm { resources = [] }

    destructs : List Call
    destructs = destructions shm.pages shm.resources

    unmaps : List Call
    unmaps = unmappings shm.page_size shm.pages

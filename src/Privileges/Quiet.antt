-- ===== src/Privileges/Quiet.antt =====
-- The checks ask the process about itself: they change nothing, unless a debug build reports.
use garnd.Prelude.{ℕ, ◌≡◌, refl, Bool, true, false, List, [], ◌∷◌, Option, arith, ◌⊎◌, inl, inr}
use garnd.Errors.{
  RuntimeError, runtime, privilege_checks_disabled, user_nonexistent, group_nonexistent,
  run_as_wrong_user, run_as_wrong_group,
}
use garnd.Io.{
  Call, Reply, done, Log, Kernel, Holds, ErrorsOpen, Holds-resume, send_error, Ensures-mono, Io,
  Outcome, ok, err, panic, resume, Since, Grows,
}
use garnd.Privileges.{
  Credentials, ResIds, check_privileges, named, check_account, check_user, check_group,
  check_groups, check_cap, check_caps, check_no_new_privs, check_bits,
}

module _ ⦃k : Kernel⦄ {S : Type 0} (c : Credentials) (s : S) (t : Log) where
  abbrev Same : S → Log → Type 0
  Same s' u = (s' ≡ s) × (u ≡ t)

  check_account_quiet :
      (account : Reply (Option ℕ)) (ids : Reply ResIds) (fs_id : ℕ) (missing wrong : RuntimeError)
      → Holds Same (check_account account ids fs_id missing wrong s t)
  unfolding check_account named
  check_account_quiet account ids fs_id missing wrong = ground arith

  check_groups_quiet : (answer : Reply (List ℕ)) → Holds Same (check_groups answer s t)
  unfolding check_groups
  check_groups_quiet answer = ground arith

  check_caps_quiet : (caps : List ℕ) → Holds Same (check_caps c caps s t)
  unfolding check_caps check_cap
  check_caps_quiet [] = (refl, refl)
  check_caps_quiet (cap ∷ caps) = ground (arith, check_caps_quiet caps)

  check_no_new_privs_quiet : (answer : Reply Bool) → Holds Same (check_no_new_privs answer s t)
  unfolding check_no_new_privs
  check_no_new_privs_quiet answer = ground arith

  check_bits_quiet : (answer : Reply ℕ) → Holds Same (check_bits answer s t)
  unfolding check_bits
  check_bits_quiet answer = ground arith

-- One silent step after another.
then_quiet :
    {S E A B : Type 0} (s : S) (t : Log) (x : Outcome E A × S × Log) (f : A → Io S E B)
    → Holds (λ s' u. (s' ≡ s) × (u ≡ t)) x
    → ((a : A) → Holds (λ s' u. (s' ≡ s) × (u ≡ t)) (f a s t))
    → Holds (λ s' u. (s' ≡ s) × (u ≡ t)) (resume x f)
then_quiet s t x f h next =
    Holds-resume (λ s' u. (s' ≡ s) × (u ≡ t)) x f h (λ a s' u (e, e'). rw (e, e') (next a))

abbrev pub Asked : {S : Type 0} → S → Log → S → Log → Type 0
Asked s t s' u =
    (s' ≡ s)
    × ((u ≡ t)
        ⊎ ((n : ℕ) × (u ≡ (Call.send_error (runtime privilege_checks_disabled), done n) ∷ t)))

module _ ⦃k : Kernel⦄ {S : Type 0} (open_errors : ErrorsOpen k) (s : S) (t : Log) where
  pub check_privileges_quiet :
      (debug_assertions : Bool) (c : Credentials)
      → Holds (Asked s t) (check_privileges debug_assertions c s t)
  unfolding check_privileges check_user check_group send_error
  check_privileges_quiet true c =
      rw (open_errors t (runtime privilege_checks_disabled)).1 (refl, inr (_, refl))
  check_privileges_quiet false c =
      Ensures-mono (λ _ s' u. (s' ≡ s) × (u ≡ t)) (λ _ s' u. (s' ≡ s) × (u ≡ t)) _ _
        (check_privileges false c s t)
        (then_quiet s t _ _
          (check_account_quiet c s t c.user c.res_uid c.fs_uid user_nonexistent run_as_wrong_user)
          (λ _.
            then_quiet s t _ _
              (then_quiet s t _ _
                (check_account_quiet c s t c.group c.res_gid c.fs_gid group_nonexistent
                  run_as_wrong_group)
                (λ _. check_groups_quiet c s t c.groups))
              (λ _. then_quiet s t _ _ (check_caps_quiet c s t c.all_caps) (λ _.
                then_quiet s t _ _ (check_no_new_privs_quiet c s t c.no_new_privs)
                  (λ _. check_bits_quiet c s t c.secure_bits)))))
        (λ _ _ _ (e, e'). (e, inl e')) (λ _ _ _ (e, e'). (e, inl e'))

Asked-Since :
    {S E A : Type 0} (s : S) (t : Log) (x : Outcome E A × S × Log)
    → Holds (Asked s t) x
    → Since t x.2
Asked-Since s t (ok a, s', u) (e, inl f) = ([], f)
Asked-Since s t (ok a, s', u) (e, inr (n, f)) = (_ ∷ [], f)
Asked-Since s t (err e, s', u) (same, inl f) = ([], f)
Asked-Since s t (err e, s', u) (same, inr (n, f)) = (_ ∷ [], f)
Asked-Since s t (panic, s', u) h = absurd h

pub check_privileges-Grows :
    ⦃k : Kernel⦄ {S : Type 0} (open_errors : ErrorsOpen k) (debug_assertions : Bool)
    (c : Credentials)
    → Grows {S = S} (check_privileges debug_assertions c)
check_privileges-Grows open_errors debug_assertions c = record {
  since = λ s t.
      Asked-Since s t (check_privileges debug_assertions c s t)
        (check_privileges_quiet open_errors s t debug_assertions c);
}

-- ===== src/Privileges/Confined.antt =====
-- What a process that passes `check_privileges` may do: nothing that needs a privilege.
use garnd.Prelude.{
  ℕ, ◌%◌, ◌-◌, ◌^◌, ◌≡◌, refl, ap, ◌≢◌, ◌↔◌, Bool, true, false, Option, none, some, List, [], ◌∷◌,
  arith, All,
}
use garnd.Errors.{
  DetailedError, RuntimeError, user_nonexistent, run_as_wrong_user, group_nonexistent,
  run_as_wrong_group,
}
use garnd.Io.{Reply, done, failed, Log, Kernel, ok, fail_if, resume, resume-ok}
use garnd.Privileges.{
  ResIds, permitted, bounding, Credentials, contains_root, secure_bits_wrong, check_account,
  check_groups, check_no_new_privs, named, check_user, check_group, check_cap, check_caps,
  check_bits, check_privileges,
}

-- An account exists, and the process runs as it: real, effective, saved and file system id.
pub record RunsAs (account : Reply (Option ℕ)) (ids : Reply ResIds) (fs_id : ℕ) : Type 0 where
  pub id : ℕ
  pub exists : account ≡ done (some id)
  pub res_ids : ids ≡ done (record { real = id; effective = id; saved = id })
  pub file_system : fs_id ≡ id

-- The secure bits: all of the eight and their locks are set, but for `keep_caps`.
abbrev pub all_but_keep_caps : ℕ
all_but_keep_caps = 256 - 1 - 2 ^ 4

pub record Confined (c : Credentials) : Type 0 where
  pub user : RunsAs c.user c.res_uid c.fs_uid
  pub group : RunsAs c.group c.res_gid c.fs_gid
  pub groups : (gs : List ℕ) × (c.groups ≡ done gs) × All (λ g. g ≢ 0) gs
  pub caps :
      All
        (λ cap. (c.has_cap permitted cap ≡ done false) × (c.has_cap bounding cap ≡ done false))
        c.all_caps
  pub no_new_privs : c.no_new_privs ≡ done true
  pub secure_bits : (x : ℕ) × (c.secure_bits ≡ done x) × (x % 256 ≡ all_but_keep_caps)

secure_bits_sound : (x : ℕ) → secure_bits_wrong x ≡ false → x % 256 ≡ all_but_keep_caps
unfolding secure_bits_wrong
secure_bits_sound x h = ground arith

secure_bits_complete : (x : ℕ) → x % 256 ≡ all_but_keep_caps → secure_bits_wrong x ≡ false
unfolding secure_bits_wrong
secure_bits_complete x h = ground arith

contains_root_sound : (gs : List ℕ) → contains_root gs ≡ false → All (λ g. g ≢ 0) gs
contains_root_sound [] h = tt
contains_root_sound (g ∷ gs) h = ground (arith, contains_root_sound gs)

contains_root_complete : (gs : List ℕ) → All (λ g. g ≢ 0) gs → contains_root gs ≡ false
contains_root_complete [] h = refl
contains_root_complete (g ∷ gs) h = ground (arith, contains_root_complete gs h.1, h.0)

module _ {S : Type 0} (s : S) (t : Log) where
  fail_if-ok : (e : DetailedError) (b : Bool) → (fail_if b e s t).0 ≡ ok tt → b ≡ false
  fail_if-ok e true h = cc
  fail_if-ok e false h = refl

  check_account-RunsAs :
      (account : Reply (Option ℕ)) (ids : Reply ResIds) (fs_id : ℕ) (missing wrong : RuntimeError)
      → (check_account account ids fs_id missing wrong s t).0 ≡ ok tt
      → RunsAs account ids fs_id
  unfolding check_account named
  check_account-RunsAs (failed n) ids fs_id missing wrong h = cc
  check_account-RunsAs (done none) ids fs_id missing wrong h = cc
  check_account-RunsAs (done (some id)) (failed n) fs_id missing wrong h = cc
  check_account-RunsAs (done (some id)) (done r) fs_id missing wrong h = record {
    id = id;
    exists = refl;
    res_ids = ground arith;
    file_system = ground arith;
  }

  RunsAs-check_account :
      (account : Reply (Option ℕ)) (ids : Reply ResIds) (fs_id : ℕ) (missing wrong : RuntimeError)
      → RunsAs account ids fs_id
      → check_account account ids fs_id missing wrong s t ≡ (ok tt, s, t)
  unfolding check_account named
  RunsAs-check_account account ids fs_id missing wrong h =
      ground (arith, h.exists, h.res_ids, h.file_system)

  check_groups_sound :
      (r : Reply (List ℕ))
      → (check_groups r s t).0 ≡ ok tt
      → (gs : List ℕ) × (r ≡ done gs) × All (λ g. g ≢ 0) gs
  unfolding check_groups
  check_groups_sound (failed n) h = cc
  check_groups_sound (done gs) h = (gs, refl, contains_root_sound gs (ground arith))

  check_groups_complete :
      (gs : List ℕ) → All (λ g. g ≢ 0) gs → check_groups (done gs) s t ≡ (ok tt, s, t)
  unfolding check_groups
  check_groups_complete gs h = rw (contains_root_complete gs h)

  check_cap_sound : (r : Reply Bool) → (check_cap r s t).0 ≡ ok tt → r ≡ done false
  unfolding check_cap
  check_cap_sound r h = ground arith

  check_no_new_privs_sound : (a : Reply Bool) → (check_no_new_privs a s t).0 ≡ ok tt → a ≡ done true
  unfolding check_no_new_privs
  check_no_new_privs_sound a h = ground arith

  check_bits_sound :
      (b : Reply ℕ)
      → (check_bits b s t).0 ≡ ok tt
      → (x : ℕ) × (b ≡ done x) × (x % 256 ≡ all_but_keep_caps)
  unfolding check_bits
  check_bits_sound (failed n) h = cc
  check_bits_sound (done x) h =
      (x, refl, secure_bits_sound x (fail_if-ok _ (secure_bits_wrong x) h))

  check_bits_complete :
      (x : ℕ) → x % 256 ≡ all_but_keep_caps → check_bits (done x) s t ≡ (ok tt, s, t)
  unfolding check_bits
  check_bits_complete x h = rw (secure_bits_complete x h)

check_tail :
    {S : Type 0} (s : S) (t : Log) (x : ℕ)
    → x % 256 ≡ all_but_keep_caps
    → resume (check_no_new_privs (done true) s t) (λ _. check_bits (done x)) ≡ (ok tt, s, t)
unfolding check_no_new_privs
check_tail s t x h = check_bits_complete s t x h

abbrev Powerless : Credentials → List ℕ → Type 0
Powerless c =
    All (λ cap. (c.has_cap permitted cap ≡ done false) × (c.has_cap bounding cap ≡ done false))

module _ {S : Type 0} (c : Credentials) where
  check_caps_sound :
      (caps : List ℕ) (s : S) (t : Log) → (check_caps c caps s t).0 ≡ ok tt → Powerless c caps
  unfolding check_caps
  check_caps_sound [] s t h = tt
  check_caps_sound (cap ∷ caps) s t h =
      let (_, p, rest) = resume-ok (check_cap (c.has_cap permitted cap) s t) _ h in
      let (_, q, last) = resume-ok (check_cap (c.has_cap bounding cap) _ _) _ rest in
      (
        (
          check_cap_sound _ _ (c.has_cap permitted cap) p,
          check_cap_sound _ _ (c.has_cap bounding cap) q,
        ),
        check_caps_sound caps _ _ last,
      )

  check_caps_complete :
      (caps : List ℕ) (s : S) (t : Log) → Powerless c caps → check_caps c caps s t ≡ (ok tt, s, t)
  unfolding check_caps check_cap
  check_caps_complete [] s t h = refl
  check_caps_complete (cap ∷ caps) s t h = simp (h.0.0, h.0.1) (check_caps_complete caps s t h.1)

  check-Confined :
      ⦃k : Kernel⦄ (s : S) (t : Log) → (check_privileges false c s t).0 ≡ ok tt → Confined c
  unfolding check_privileges check_user check_group
  check-Confined s t h =
      let (_, u, h₁) = resume-ok (check_user c s t) _ h in
      let (_, g, h₂) = resume-ok (check_group c _ _) _ h₁ in
      let (_, g', g'') =
        resume-ok
          (check_account c.group c.res_gid c.fs_gid group_nonexistent run_as_wrong_group _ _) _ g in
      let (_, p, h₃) = resume-ok (check_caps c c.all_caps _ _) _ h₂ in
      let (_, n, b) = resume-ok (check_no_new_privs c.no_new_privs _ _) _ h₃ in
      record {
        user = check_account-RunsAs _ _ c.user c.res_uid c.fs_uid _ _ u;
        group = check_account-RunsAs _ _ c.group c.res_gid c.fs_gid _ _ g';
        groups = check_groups_sound _ _ c.groups g'';
        caps = check_caps_sound c.all_caps _ _ p;
        no_new_privs = check_no_new_privs_sound _ _ c.no_new_privs n;
        secure_bits = check_bits_sound _ _ c.secure_bits b;
      }

  Confined-check :
      ⦃k : Kernel⦄ (s : S) (t : Log) → Confined c → check_privileges false c s t ≡ (ok tt, s, t)
  unfolding check_privileges check_user check_group
  Confined-check s t h =
      simp
        (
          RunsAs-check_account s t c.user c.res_uid c.fs_uid user_nonexistent run_as_wrong_user
              h.user,
          RunsAs-check_account s t c.group c.res_gid c.fs_gid group_nonexistent run_as_wrong_group
              h.group,
          h.groups.1,
          check_groups_complete s t h.groups.0 h.groups.2,
          check_caps_complete c.all_caps s t h.caps,
          h.no_new_privs,
          h.secure_bits.1,
        )
        (check_tail s t h.secure_bits.0 h.secure_bits.2)

-- A release build lets exactly those processes pass that are confined: they run as the daemon's user
-- and group in every respect, without root as a further group, without any permitted or bounding
-- capability, unable to gain privileges, and with all secure bits and locks set but `keep_caps`. For
-- those the check neither reports nor changes anything.
pub check_privileges-Confined :
    ⦃k : Kernel⦄ {S : Type 0} (c : Credentials) (s : S) (t : Log)
    → (((check_privileges false c s t).0 ≡ ok tt) ↔ Confined c)
      × (Confined c → check_privileges false c s t ≡ (ok tt, s, t))
check_privileges-Confined c s t =
    ((check-Confined c s t, λ h. ap (λ x. x.0) (Confined-check c s t h)), Confined-check c s t)

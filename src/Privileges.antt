-- ===== src/Privileges.antt =====
-- src/linux/runtime.rs: `check_privileges`. What the system says of the process is a `Credentials`:
-- each field is the answer of one call, and `fs_uid` and `fs_gid` are what `setfsuid` and `setfsgid`
-- return for an invalid id, which changes nothing.
pub mod Confined
pub mod Quiet
pub mod Samples
mod Tests
use garnd.Prelude.{
  ℕ, ◌/◌, ◌%◌, ◌^◌, Bool, true, false, not, ◌&&◌, ◌||◌, Option, none, some, List, [], ◌∷◌, ltb,
  ◌==◌, if◌then◌else◌,
}
use garnd.Errors.{
  DetailedError, RuntimeError, runtime, privilege_checks_disabled, user_nonexistent,
  group_nonexistent, run_as_wrong_user, run_as_wrong_group, run_with_root_group,
  run_with_capabilities, may_obtain_new_privileges, secure_bits_not_set,
}
use garnd.Io.{Reply, Kernel, Io, pure, fail, fail_if, convert, send_error, ◌>>=◌, ◌>>◌}

pub record ResIds : Type 0 where
  pub real : ℕ
  pub effective : ℕ
  pub saved : ℕ

pub data CapSet : Type 0 where
  permitted bounding : CapSet

pub record Credentials : Type 0 where
  -- the ids of `constants::USER_NAME` and `constants::GROUP_NAME`, if there are such
  pub user : Reply (Option ℕ)
  pub group : Reply (Option ℕ)
  pub res_uid : Reply ResIds
  pub fs_uid : ℕ
  pub res_gid : Reply ResIds
  pub fs_gid : ℕ
  pub groups : Reply (List ℕ)
  pub all_caps : List ℕ
  pub has_cap : CapSet → ℕ → Reply Bool
  pub no_new_privs : Reply Bool
  pub secure_bits : Reply ℕ

abbrev pub differs : ResIds → ℕ → Bool
differs r id = not (r.real == id) || not (r.effective == id) || not (r.saved == id)

abbrev pub contains_root : List ℕ → Bool
contains_root [] = false
contains_root (g ∷ gs) = g == 0 || contains_root gs

-- `x & (1 << n) != 0`; the secure bits by their numbers in linux/securebits.h
abbrev pub bit : ℕ → ℕ → Bool
bit n x = not (x / 2 ^ n % 2 == 0)

abbrev pub noroot : ℕ
noroot = 0

abbrev pub noroot_locked : ℕ
noroot_locked = 1

abbrev pub no_setuid_fixup : ℕ
no_setuid_fixup = 2

abbrev pub no_setuid_fixup_locked : ℕ
no_setuid_fixup_locked = 3

abbrev pub keep_caps : ℕ
keep_caps = 4

abbrev pub keep_caps_locked : ℕ
keep_caps_locked = 5

abbrev pub no_cap_ambient_raise : ℕ
no_cap_ambient_raise = 6

abbrev pub no_cap_ambient_raise_locked : ℕ
no_cap_ambient_raise_locked = 7

pub secure_bits_wrong : ℕ → Bool
secure_bits_wrong x =
    not (bit noroot x)
    || not (bit noroot_locked x)
    || bit keep_caps x
    || not (bit keep_caps_locked x)
    || not (bit no_setuid_fixup x)
    || not (bit no_setuid_fixup_locked x)
    || not (bit no_cap_ambient_raise x)
    || not (bit no_cap_ambient_raise_locked x)

module _ {S : Type 0} where
  named : Option ℕ → RuntimeError → Io S DetailedError ℕ
  named none e = fail (runtime e)
  named (some id) e = pure id

  -- The account exists, and the process runs as it in all four respects.
  check_account :
      Reply (Option ℕ)
      → Reply ResIds
      → ℕ
      → (missing wrong : RuntimeError) → Io S DetailedError (Unit {0})
  check_account account ids fs_id missing wrong = do
    id ← named (← convert account) missing
    res_ids ← convert ids
    fail_if (differs res_ids id) (runtime wrong)
    fail_if (not (fs_id == id)) (runtime wrong)

  check_user : Credentials → Io S DetailedError (Unit {0})
  check_user c = check_account c.user c.res_uid c.fs_uid user_nonexistent run_as_wrong_user

  check_groups : Reply (List ℕ) → Io S DetailedError (Unit {0})
  check_groups answer = do
    groups ← convert answer
    fail_if (contains_root groups) (runtime run_with_root_group)

  check_group : Credentials → Io S DetailedError (Unit {0})
  check_group c = do
    check_account c.group c.res_gid c.fs_gid group_nonexistent run_as_wrong_group
    check_groups c.groups

  check_cap : Reply Bool → Io S DetailedError (Unit {0})
  check_cap r = do has_cap ← convert r; fail_if has_cap (runtime run_with_capabilities)

  check_caps : Credentials → List ℕ → Io S DetailedError (Unit {0})
  check_caps c [] = pure tt
  check_caps c (cap ∷ caps) = do
    check_cap (c.has_cap permitted cap)
    check_cap (c.has_cap bounding cap)
    check_caps c caps

  check_no_new_privs : Reply Bool → Io S DetailedError (Unit {0})
  check_no_new_privs answer = do
    no_new_privs ← convert answer
    fail_if (not no_new_privs) (runtime may_obtain_new_privileges)

  check_bits : Reply ℕ → Io S DetailedError (Unit {0})
  check_bits answer = do
    secure_bits ← convert answer
    fail_if (secure_bits_wrong secure_bits) (runtime secure_bits_not_set)

  -- A release build checks all of it; a debug build reports that it checks nothing.
  pub check_privileges :
      ⦃k : Kernel⦄ → (debug_assertions : Bool) → Credentials → Io S DetailedError (Unit {0})
  check_privileges debug_assertions c =
      if debug_assertions then send_error (runtime privilege_checks_disabled) else (do
        check_user c
        check_group c
        check_caps c c.all_caps
        check_no_new_privs c.no_new_privs
        check_bits c.secure_bits)

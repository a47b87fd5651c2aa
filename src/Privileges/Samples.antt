-- ===== src/Privileges/Samples.antt =====
-- A process confined as the daemon's service unit starts it.
use garnd.Prelude.{some, [], ◌∷◌, false, true}
use garnd.Io.{done}
use garnd.Privileges.{Credentials, ResIds}

abbrev pub as_7 : ResIds
as_7 = record { real = 7; effective = 7; saved = 7 }

abbrev pub unprivileged : Credentials
unprivileged = record {
  user = done (some 7);
  group = done (some 7);
  res_uid = done as_7;
  fs_uid = 7;
  res_gid = done as_7;
  fs_gid = 7;
  groups = done (7 ∷ []);
  all_caps = 0 ∷ 21 ∷ [];
  has_cap = λ s c. done false;
  no_new_privs = done true;
  secure_bits = done 239;
}

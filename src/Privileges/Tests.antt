-- ===== src/Privileges/Tests.antt =====
-- A confined process, as the daemon's service unit starts it.
use garnd.Prelude.{ℕ, ◌≡◌, ◌↔◌, [], false}
use garnd.Io.{ok}
use garnd.Io.Samples.{working}
use garnd.Privileges.{check_privileges}
use garnd.Privileges.Samples.{unprivileged}
use garnd.Privileges.Confined.{Confined, check_privileges-Confined}

check_privileges-Confined_example :
    (((check_privileges {S = ℕ} false unprivileged 0 []).0 ≡ ok tt) ↔ Confined unprivileged)
    × (Confined unprivileged → check_privileges {S = ℕ} false unprivileged 0 [] ≡ (ok tt, 0, []))
check_privileges-Confined_example = check_privileges-Confined unprivileged 0 []

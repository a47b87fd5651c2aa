-- ===== src/Constants.antt =====
-- src/constants.rs.
use garnd.Prelude.{ℕ, String}

abbrev pub user_name : String
user_name = "garnd"

abbrev pub group_name : String
group_name = "garnd"

abbrev pub exit_code_success : ℕ
exit_code_success = 0

abbrev pub exit_code_failure : ℕ
exit_code_failure = 1

abbrev pub working_dir_env_option : String
working_dir_env_option = "GARND_WORKING_DIR"

abbrev pub circuit_breaker_epoch_seconds : ℕ
circuit_breaker_epoch_seconds = 3

abbrev pub circuit_breaker_reloads_per_epoch : ℕ
circuit_breaker_reloads_per_epoch = 100

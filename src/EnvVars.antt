-- ===== src/EnvVars.antt =====
-- src/util.rs and src/early_failure.rs: `get_optional_env_var`. What the environment holds is a
-- parameter, and `inr` is the exit of the process, with its code.
use Prim.Native.String.{◌++◌}
use garnd.Prelude.{ℕ, String, Option, none, some, ◌⊎◌, inl, inr}
use garnd.Constants.{exit_code_failure}
use garnd.Io.{Call, Kernel, Io, pure, panics, or_else, call, ◌>>=◌, ◌>>◌}

-- `std::env::var`
pub data EnvVar : Type 0 where
  value : String → EnvVar
  not_present not_unicode : EnvVar

module _ ⦃k : Kernel⦄ {S : Type 0} where
  -- `eprintln!` panics if stderr cannot be written.
  unfoldable pub early_failure : String → Io S ⊥ ℕ
  early_failure message = do
    or_else (do call (Call.print_early ("EARLY FAILURE! " ++ message)); pure tt) (λ _. panics)
    pure exit_code_failure

  unfoldable pub get_optional_env_var : String → EnvVar → Io S ⊥ (Option String ⊎ ℕ)
  get_optional_env_var name (value s) = pure (inl (some s))
  get_optional_env_var name not_present = pure (inl none)
  get_optional_env_var name not_unicode = do
    code ← early_failure ("environment variable '" ++ (name ++ "' is not a valid UTF8-string"))
    pure (inr code)

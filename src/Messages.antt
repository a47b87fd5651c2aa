-- ===== src/Messages.antt =====
-- The texts that the program prints: `Display` of src/linux/runtime_error.rs and
-- src/shutdown_signal.rs. A text is a list of characters. How the standard library prints a `usize` is
-- a parameter, `show`.
pub mod Unambiguous
mod Tests
use Prim.Native.Char.{Char}
use garnd.Prelude.{ℕ, String, List, [], ◌∷◌, ◌++◌}
use garnd.Constants.{user_name, group_name}
use garnd.Errors.{
  RuntimeError, privilege_checks_disabled, user_nonexistent, group_nonexistent, run_as_wrong_user,
  run_as_wrong_group, run_with_root_group, run_with_capabilities, may_obtain_new_privileges,
  secure_bits_not_set, service_already_running, welcome_socket_failed, get_page_size_failed,
  resource_name_already_in_use, resource_alignment_larger_than_page, resource_too_large_for_page,
  resource_type_mismatch,
}

abbrev pub Text : Type 0
Text = List Char

abbrev pub chars : String → Text
chars String.[] = []
chars (String.◌∷◌ c s) = c ∷ chars s

-- `fmt` of `RuntimeError`
unfoldable pub display : (ℕ → Text) → RuntimeError → Text
display show privilege_checks_disabled = chars "privilege checks are disabled in debug mode"
display show user_nonexistent = chars "unable to find user '" ++ (chars user_name ++ chars "'")
display show group_nonexistent = chars "unable to find group '" ++ (chars group_name ++ chars "'")
display show run_as_wrong_user =
    chars "service must be run as user '"
    ++ (chars user_name ++ chars "' (real, effective, saved and file system)")
display show run_as_wrong_group =
    chars "service must be run as group '"
    ++ (chars group_name ++ chars "' (real, effective, saved and file system)")
display show run_with_root_group =
    chars "service must not be run with 'root' as a supplementary group"
display show run_with_capabilities =
    chars "service must not be run with any permitted or bounding capabilities"
display show may_obtain_new_privileges =
    chars "service must be run with the 'no new privs' attribute"
display show secure_bits_not_set =
    chars "service must be run with all secure bits and all locks set except for 'keep_caps'"
display show service_already_running =
    chars "service is either already running or another process impersonates it"
display show welcome_socket_failed = chars "welcome socket broke down unexpectedly"
display show get_page_size_failed = chars "could not determine the system's page size"
display show (resource_name_already_in_use resource_name) =
    chars "a resource with the same name (\"" ++ (chars resource_name ++ chars "\") already exists")
display show (resource_alignment_larger_than_page page_size alignment) =
    chars
      "tried to move a resource into share memory whose alignment is larger than the page size (page size = "
    ++ (show page_size ++ (chars ", alignment = " ++ (show alignment ++ chars ")")))
display show (resource_too_large_for_page page_size size) =
    chars
      "tried to move a resource into shared memory which is larger than a whole page (page size = "
    ++ (show page_size ++ (chars ", resource size = " ++ (show size ++ chars ")")))
display show (resource_type_mismatch requested_type resource_type) =
    chars "tried to access a resource of the wrong type (requested type = "
    ++ (chars requested_type ++ (chars ", resource_type = " ++ (chars resource_type ++ chars ")")))

-- `fmt` of `ShutdownSignal` and of `ReloadRequest`
abbrev pub shutdown_signal_text : Text
shutdown_signal_text = chars "Service shutdown requested."

abbrev pub reload_request_text : Text
reload_request_text = chars "Service reload requested."

-- ===== src/Errors.antt =====
-- The errors that travel through the program: src/linux/runtime_error.rs (`RuntimeError`), the two
-- signals of src/shutdown_signal.rs and `IgnoredRootRequestError` of src/linux/welcome_thread.rs.
-- `DetailedError` belongs to garnshared; the program only wraps an error into it by `add_metadata`
-- and asks for the wrapped error's type, so it is modelled by the wrapped error.
use garnd.Prelude.{ℕ, String}

pub data RuntimeError : Type 0 where
  privilege_checks_disabled user_nonexistent group_nonexistent : RuntimeError
  run_as_wrong_user run_as_wrong_group run_with_root_group run_with_capabilities : RuntimeError
  may_obtain_new_privileges secure_bits_not_set service_already_running : RuntimeError
  welcome_socket_failed get_page_size_failed : RuntimeError
  resource_name_already_in_use : String → RuntimeError
  resource_alignment_larger_than_page : (page_size alignment : ℕ) → RuntimeError
  resource_too_large_for_page : (page_size size : ℕ) → RuntimeError
  resource_type_mismatch : (requested_type resource_type : String) → RuntimeError

-- `system n` wraps an error that a call outside this repository returned, by its number.
pub data DetailedError : Type 0 where
  runtime : RuntimeError → DetailedError
  shutdown_signal reload_request ignored_root_request : DetailedError
  -- a channel whose other end is gone, and a number that a narrower type cannot hold
  disconnected out_of_range : DetailedError
  system : ℕ → DetailedError

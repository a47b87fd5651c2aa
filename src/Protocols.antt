-- ===== src/Protocols.antt =====
-- What the daemon uses of garnshared, which is not part of this repository: the two wire protocols
-- and the mutex type. `from_utf8` is that of the standard library. Below it stands how both threads
-- answer a request that they cannot read or serve: the macro `unwrap_or_report_failure!` of
-- src/linux/util.rs, and the end of `receive_and_parse_request`, which src/linux/welcome_thread.rs and
-- src/linux/environment_synchronization_thread.rs share word for word.
pub mod Answers
pub mod Tally
pub mod Carrying
pub mod Samples
use garnd.Prelude.{ℕ, String, List, [], ◌∷◌}
use garnd.Errors.{DetailedError}
use garnd.Io.{Call, Reply, Kernel, Io, fail, or_else, call, convert, ◌>>=◌, ◌>>◌}
use garnd.Shm.{ShmType}

-- `serialize_internal_error` yields a text for every protocol; `malformed_request` is the response of
-- that name.
pub record Protocol (Request Response : Type 0) : Type 0 where
  pub max_size : ℕ
  pub from_utf8 : List ℕ → Reply String
  pub deserialize : String → Reply Request
  pub serialize : Response → Reply String
  pub malformed_request : Response
  pub serialize_internal_error : String

pub data EnvironmentRequest : Type 0 where
  open_mutex : String → EnvironmentRequest

pub data EnvironmentResponse : Type 0 where
  malformed_request : EnvironmentResponse
  open_mutex_ok : (page offset : ℕ) → EnvironmentResponse

pub data WelcomeRequest : Type 0 where
  open_environment : String → WelcomeRequest

pub data WelcomeResponse : Type 0 where
  malformed_request open_environment_ok : WelcomeResponse

pub record Garnshared : Type 0 where
  pub environment : Protocol EnvironmentRequest EnvironmentResponse
  pub welcome : Protocol WelcomeRequest WelcomeResponse
  pub pthread_mutex : ShmType

module _ ⦃k : Kernel⦄ {Request Response S : Type 0} (p : Protocol Request Response) where
  -- `send` of an answer to a request that failed with `e`. An error of its own is added.
  pub send_about : {A : Type 0} → ℕ → String → DetailedError → Io S (List DetailedError) A
  send_about fd text e = do
    or_else (call (Call.send fd text)) (λ e'. fail (e ∷ e' ∷ []))
    fail (e ∷ [])

  -- `unwrap_or_report_failure!`
  unfoldable pub unwrap_or_report_failure :
      {A : Type 0} → Io S DetailedError A → ℕ → Io S (List DetailedError) A
  unfolding send_about
  unwrap_or_report_failure m fd = or_else m (send_about fd p.serialize_internal_error)

  reject_malformed : {A : Type 0} → ℕ → DetailedError → Io S (List DetailedError) A
  reject_malformed fd e = do
    response ← or_else (convert (p.serialize p.malformed_request)) (λ e'. fail (e ∷ e' ∷ []))
    send_about fd response e

  -- What follows the `recv` in both functions `receive_and_parse_request`.
  pub parse_request : ℕ → List ℕ → Io S (List DetailedError) Request
  parse_request fd buffer = do
    text ← or_else (convert (p.from_utf8 buffer)) (reject_malformed fd)
    or_else (convert (p.deserialize text)) (reject_malformed fd)

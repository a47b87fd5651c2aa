-- ===== src/Requests.antt =====
-- src/linux/environment_synchronization_thread.rs: `receive_and_parse_request` and the handler of the
-- one request that a client of an environment can make, `OpenMutex`.
pub mod Carrying
pub mod Kept
pub mod Session
pub mod Registry
pub mod Granting
pub mod Shared
pub mod Client
mod Tests
use garnd.Prelude.{ℕ, Option, none, some, List, [], ◌∷◌, String}
use garnd.Errors.{DetailedError}
use garnd.Io.{Call, Kernel, Io, ok, pure, fail, or_else, call, convert, ◌>>=◌, ◌>>◌}
use garnd.Protocols.{
  Garnshared, EnvironmentRequest, open_mutex, open_mutex_ok, unwrap_or_report_failure,
  parse_request,
}
use garnd.Shm.{ShmAllocator, ClientResourceLocation, Shm, construct_in_shm, find_resource}

module _ ⦃k : Kernel⦄ ⦃g : Garnshared⦄ where
  pub receive_and_parse_request : ℕ → Io ShmAllocator (List DetailedError) EnvironmentRequest
  receive_and_parse_request fd = do
    or_else (call (Call.recv fd g.environment.max_size)) (λ e. fail (e ∷ []))
    buffer ← λ s t. (ok (k.buffer t), s, t)
    parse_request g.environment fd buffer

  or_report : {A : Type 0} → Shm A → ℕ → Io ShmAllocator (List DetailedError) A
  or_report = unwrap_or_report_failure g.environment

  location_or_new :
      String
      → ℕ
      → Option ClientResourceLocation
      → Io ShmAllocator (List DetailedError) ClientResourceLocation
  location_or_new name fd (some l) = pure l
  location_or_new name fd none = or_report (construct_in_shm g.pthread_mutex Call.construct name) fd

  -- The page's descriptor goes to the client along with the response.
  share : ℕ → ClientResourceLocation → Io ShmAllocator (List DetailedError) (Unit {0})
  share fd l = do
    response ← or_report (convert (g.environment.serialize (open_mutex_ok l.page l.offset))) fd
    or_else (call (Call.send_with_fd fd response l.fd)) (λ e. fail (e ∷ []))
    pure tt

  pub handle_open_mutex : String → ℕ → Io ShmAllocator (List DetailedError) (Unit {0})
  handle_open_mutex name fd = do
    found ← or_report (find_resource g.pthread_mutex name) fd
    l ← location_or_new name fd found
    share fd l

  pub handle_request : EnvironmentRequest → ℕ → Io ShmAllocator (List DetailedError) (Unit {0})
  handle_request (open_mutex name) fd = handle_open_mutex name fd

  -- One request of a client, as the event loop reads and handles it.
  pub serve_client : ℕ → Io ShmAllocator (List DetailedError) (Unit {0})
  serve_client fd = do request ← receive_and_parse_request fd; handle_request request fd

-- ===== src/Io/Calls.antt =====
-- The calls that leave the repository, and what answers them.
use garnd.Prelude.{ℕ, String, List, Option}
use garnd.Prelude.Int.{ℤ}
use garnd.Errors.{DetailedError}

-- The two functions that are handlers of signals.
pub data Handler : Type 0 where
  termination_signal_handler reload_signal_handler : Handler

pub data Call : Type 0 where
  -- descriptors and events
  close eventfd_read eventfd_write : (fd : ℕ) → Call
  eventfd_new : Call
  -- shared memory: a page's descriptor, its address, the placement constructor and the destructor
  memfd_create : Call
  ftruncate mmap : (fd size : ℕ) → Call
  add_seals : (fd : ℕ) → Call
  munmap : (address size : ℕ) → Call
  construct destruct : (address : ℕ) → Call
  -- sockets
  send : (fd : ℕ) → String → Call
  send_with_fd : (fd : ℕ) → String → (passed_fd : ℕ) → Call
  recv : (fd size : ℕ) → Call
  listen accept peer_uid dup : (fd : ℕ) → Call
  epoll_create : Call
  epoll_add : (fd : ℕ) → Call
  epoll_wait : (max_events : ℕ) → Call
  poll : Call
  -- channels and threads
  send_error : DetailedError → Call
  send_close : String → Call
  send_response : Option DetailedError → Call
  send_listener : (thread fd : ℕ) → Call
  recv_response : (thread : ℕ) → Call
  -- an environment's thread, with the two events that it shares with its handle
  spawn_thread : String → (add_listener_event drop_event : ℕ) → Call
  spawn_welcome_thread : (welcome_socket shutdown_event reload_event : ℕ) → Call
  join_thread : (thread : ℕ) → Call
  -- start-up: the welcome socket, the signal handlers by signal, systemd's `notify` by its status
  socket : Call
  set_pass_cred bind_welcome : (fd : ℕ) → Call
  sigaction : (signal : ℕ) → Handler → Call
  notify : String → Call
  log : DetailedError → Call
  -- the message of `early_failure` on stderr
  print_early : String → Call
  -- SIGKILL to the process itself
  kill_self : Call
  -- a message written to stderr by `error_in_brittle_scenario`
  report_brittle : Call

-- A call succeeds with a number (a descriptor, an address, a count; 0 where it gives nothing), or
-- fails with the number of an error.
pub data Reply (A : Type 0) : Type 0 where
  done : A → Reply A
  failed : ℕ → Reply A

abbrev pub Log : Type 0
Log = List (Call × Reply ℕ)

pub record Kernel : Type 0 where
  pub answer : Log → Call → Reply ℕ
  -- what a successful `recv` has left in the buffer
  pub buffer : Log → List ℕ
  -- `sysconf(PAGE_SIZE)`, which may know no limit
  pub page_size : Log → Reply (Option ℤ)

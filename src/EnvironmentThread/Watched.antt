-- ===== src/EnvironmentThread/Watched.antt =====
-- No client is lost: a socket that the thread watches, and has not closed since, is in its set.
pub mod Over
use garnd.Prelude.{
  ◌≢◌, ℕ, ◌≡◌, Bool, Bool-cases, true, false, inl, inr, List, [], ◌∷◌, arith, ◌==◌, if◌then◌else◌,
}
use garnd.Io.{
  Call, Reply, done, failed, Log, Kernel, Allows, Carries, Carries-resume, Carries-if, Carries-zoom,
  pure-Carries, get-Carries, panics-Carries, Reply-cases,
}
use garnd.Protocols.{Garnshared}
use garnd.Requests.{serve_client}
use garnd.Requests.Carrying.{serve_client-lasts}
use garnd.SocketSet
use garnd.SocketSet.{SocketSet, contains, erase}
use garnd.SocketSet.Laws.{
  insert-contains_self, insert-contains_keeps, erase-contains_ne, remove-Carries_closing,
}
use garnd.Errors.{DetailedError}
use garnd.EnvironmentThread.{
  report_error_and_close, Handles, EnvThread, Round, watch, receive_listeners, event_loop,
  sockets_of, shm_of,
}
use garnd.EnvironmentThread.Carrying.{event_loop-Carries, report_error_and_close-Carries}

-- Whether the last call that adds this descriptor to the epoll instance, or closes it, adds it.
abbrev pub watched : ℕ → Log → Bool
watched fd [] = false
watched fd ((Call.epoll_add x, done _) ∷ t) = if x == fd then true else watched fd t
watched fd ((Call.close x, _) ∷ t) = if x == fd then false else watched fd t
watched fd (_ ∷ t) = watched fd t

-- The set holds all that is watched, but for the two events of the thread.
abbrev pub HoldsWatched : Handles → SocketSet → Log → Type 0
HoldsWatched h ss t =
    (fd : ℕ)
    → fd ≢ h.add_listener_event
    → fd ≢ h.drop_event
    → watched fd t ≡ true
    → contains fd ss ≡ true

abbrev pub adds : Call → Bool
adds (Call.epoll_add _) = true
adds _ = false

pub watched_before :
    (fd : ℕ) (c : Call) (r : Reply ℕ) (t : Log)
    → adds c ≡ false
    → watched fd ((c, r) ∷ t) ≡ true
    → watched fd t ≡ true
watched_before fd c r t other h = ground (arith, other, h)

insert-HoldsWatched :
    (h : Handles) (fd n : ℕ) (ss : SocketSet) (t : Log)
    → HoldsWatched h ss t
    → HoldsWatched h (SocketSet.insert fd ss) ((Call.epoll_add fd, done n) ∷ t)
insert-HoldsWatched h fd n ss t p x a b w = elim (Bool-cases (fd == x)) [
  | inl same ↦ ground (arith, same, insert-contains_self fd ss)
  | inr other ↦ insert-contains_keeps fd x ss (p x a b (ground (arith, other, w)))
]

erase-HoldsWatched :
    (h : Handles) (fd : ℕ) (ss : SocketSet) (t : Log) (r : Reply ℕ)
    → HoldsWatched h ss t
    → HoldsWatched h (erase fd ss) ((Call.close fd, r) ∷ t)
erase-HoldsWatched h fd ss t r p x a b w = elim (Bool-cases (fd == x)) [
  | inl same ↦ ground (arith, same, w)
  | inr other ↦ ground (arith, other, w, p x a b, erase-contains_ne fd x ss)
]

refused-HoldsWatched :
    (h : Handles) (fd n : ℕ) (r : Reply ℕ) (ss : SocketSet) (t : Log)
    → HoldsWatched h ss t
    → HoldsWatched h ss ((Call.close fd, r) ∷ (Call.epoll_add fd, failed n) ∷ t)
refused-HoldsWatched h fd n r ss t p x a b w = ground (arith, w, p x a b)

module _ ⦃k : Kernel⦄ ⦃g : Garnshared⦄ (h : Handles) where
  R : EnvThread → Log → Type 0
  R e t = HoldsWatched h e.sockets t

  allows : (c : Call) → adds c ≡ false → Allows R c
  unfolding R
  allows c other r e t p fd a b w = p fd a b (watched_before fd c r t other w)

  receive_listeners-R : (fds : List ℕ) → Carries R (receive_listeners fds)
  unfolding receive_listeners watch R
  receive_listeners-R [] =
      Carries-resume R _ _ (get-Carries R)
        (λ e. Carries-if R e.owner_alive _ _ (pure-Carries R tt) (panics-Carries R))
  receive_listeners-R (fd ∷ fds) = record {
    carries = λ e t p. elim (Reply-cases (k.answer t (Call.epoll_add fd))) [
      | inl (n, added) ↦ rw added (
          (receive_listeners-R fds).carries
            (record e { add_listener_rx = fds; sockets = SocketSet.insert fd e.sockets })
            ((Call.epoll_add fd, done n) ∷ t) (insert-HoldsWatched h fd n e.sockets t p))
      | inr (n, refused) ↦ rw refused (
          refused-HoldsWatched h fd n (k.answer ((Call.epoll_add fd, failed n) ∷ t) (Call.close fd))
            e.sockets t p)
    ];
  }

  remove-R : (fd : ℕ) → Carries {E = ⊥} R (sockets_of (SocketSet.remove fd))
  unfolding R
  remove-R fd =
      Carries-zoom R (λ e. e.sockets) (λ e ss. record e { sockets = ss }) (SocketSet.remove fd)
        (λ e t p. p) (λ e. remove-Carries_closing ⊥ (HoldsWatched h) fd (erase-HoldsWatched h fd))

  serve_client-R : (fd : ℕ) → Carries R (shm_of (serve_client fd))
  unfolding R
  serve_client-R fd =
      Carries-zoom R (λ e. e.shm) (λ e s. record e { shm = s }) _ (λ e t p. p)
        (λ e.
          serve_client-lasts (HoldsWatched h e.sockets)
            (λ c request r s t p. allows c (ground (arith, request)) r e t p) fd)

  pub report_error_and_close-HoldsWatched :
      (x : DetailedError) (e : EnvThread) (t : Log)
      → HoldsWatched h e.sockets t
      → let (_, e', u) = report_error_and_close {E = ⊥} x h e t in HoldsWatched h e'.sockets u
  unfolding R
  report_error_and_close-HoldsWatched x e t p =
      (report_error_and_close-Carries R (λ c notice. allows c (ground (arith, notice)))
          (λ fds e t p. p) receive_listeners-R remove-R serve_client-R x h).carries
        e t p

  -- The event loop loses no client: if every descriptor that is watched and was not closed since, but for
  -- the thread's two events, is in the socket set before, it is so after any rounds, whatever the calls answer and whether the
  -- loop waits, is left or panics.
  pub event_loop-HoldsWatched :
      (rs : List Round) (e : EnvThread) (t : Log)
      → HoldsWatched h e.sockets t
      → let (_, e', u) = event_loop h rs e t in HoldsWatched h e'.sockets u
  unfolding R
  event_loop-HoldsWatched rs e t p =
      (event_loop-Carries R (λ c notice. allows c (ground (arith, notice))) (λ fds e t p. p)
          receive_listeners-R remove-R serve_client-R h rs).carries
        e t p

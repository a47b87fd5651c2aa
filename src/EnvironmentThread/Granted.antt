-- ===== src/EnvironmentThread/Granted.antt =====
-- The event loop of an environment is a session: what all its clients were granted, over its whole life.
use garnd.Prelude.{arith, ℕ, ◌≡◌, refl, ◌<◌, true, false, List, [], ◌∷◌}
use garnd.Io.{
  Call, Log, Kernel, Allows, Carries, Carries-resume, Carries-recover, Carries-zoom, call-Carries,
  ignore-Carries, pure-Carries, fail-Carries, panics-Carries, get-Carries, modify-Carries, call,
  Carries-if,
}
use garnd.Protocols.{Garnshared}
use garnd.Requests.Granting.{
  Granting, Consistent, Session-Consistent, elsewhere-Allows, serve_client-Carries,
}
use garnd.Requests.Kept.{AllMutexes}
use garnd.Requests.Session.{Grant, Session, begin, passes_fd}
use garnd.Shm.{ShmAllocator}
use garnd.Shm.Invariant.{IsValid}
use garnd.SocketSet
use garnd.SocketSet.{SocketSet}
use garnd.SocketSet.Laws.{remove-Carries}
use garnd.EnvironmentThread.Carrying.{is_notice, event_loop-Carries}
use garnd.EnvironmentThread.{
  sockets_of, Handles, EnvThread, Round, watch, receive_listeners, event_loop,
}

module _ ⦃k : Kernel⦄ ⦃g : Garnshared⦄ (shm : ShmAllocator) (t₀ : Log) where
  abbrev R : EnvThread → Log → Type 0
  R e t = Granting shm t₀ e.shm t

  allows : (c : Call) → passes_fd c ≡ false → Allows R c
  allows c other r e t p = elsewhere-Allows shm t₀ c other r e.shm t p

  call-R : (c : Call) → passes_fd c ≡ false → Carries R (call c)
  call-R c other = call-Carries R c (allows c other)

  receive_listeners-R : (fds : List ℕ) → Carries R (receive_listeners fds)
  unfolding receive_listeners watch
  receive_listeners-R [] =
      Carries-resume R _ _ (get-Carries R)
        (λ e. Carries-if R e.owner_alive _ _ (pure-Carries R tt) (panics-Carries R))
  receive_listeners-R (fd ∷ fds) =
      Carries-resume R _ _ (modify-Carries R (λ e. record e { add_listener_rx = fds }) (λ e t p. p))
        (λ _.
          Carries-resume R _ _
            (Carries-recover R _ _ (call-R (Call.epoll_add fd) refl) (λ e'.
              Carries-resume R _ _ (ignore-Carries R (Call.close fd) (allows (Call.close fd) refl))
                (λ _. fail-Carries R e')))
            (λ _.
              Carries-resume R _ _
                (modify-Carries R (λ e. record e { sockets = SocketSet.insert fd e.sockets })
                  (λ e t p. p))
                (λ _. receive_listeners-R fds)))

  remove-R : (fd : ℕ) → Carries {E = ⊥} R (sockets_of (SocketSet.remove fd))
  remove-R fd =
      Carries-zoom R (λ e. e.sockets) (λ e ss. record e { sockets = ss }) (SocketSet.remove fd)
        (λ e t p. p)
        (λ e.
          remove-Carries ⊥ (λ ss t. R (record e { sockets = ss }) t) fd (λ ss ss' t p. p)
            (λ r ss t p. allows (Call.close fd) refl r e t p))

  notices : (c : Call) → is_notice c ≡ true → Allows R c
  notices c notice = allows c (ground (arith, notice))

  module _ (valid : IsValid shm) (align : 0 < g.pthread_mutex.align) where
    event_loop-R : (h : Handles) (rs : List Round) → Carries R (event_loop h rs)
    event_loop-R =
        event_loop-Carries R notices (λ fds e t p. p) receive_listeners-R remove-R
          (λ fd.
            Carries-zoom R (λ e. e.shm) (λ e s. record e { shm = s }) _ (λ e t p. p)
              (λ e. serve_client-Carries shm t₀ valid align fd))

-- The event loop of an environment never leaves the session: from a valid allocator of mutexes on, with
-- a mutex alignment above zero, whatever events arrive and whatever the calls answer, all requests that
-- the loop has handled, in their order, make a session, and any two of the grants in it are compatible:
-- two clients that were granted the same name were sent the same response and descriptor, and two that
-- were granted different names were told locations of mutexes that do not overlap.
pub event_loop-Session :
    ⦃k : Kernel⦄ ⦃g : Garnshared⦄ (h : Handles) (rs : List Round) (e : EnvThread) (t : Log)
    → IsValid e.shm
    → 0 < g.pthread_mutex.align
    → AllMutexes e.shm
    → let (_, e', u) = event_loop h rs e t in
      (gs : List Grant) × Session e.shm t gs e'.shm u × Consistent gs
event_loop-Session h rs e t valid align all =
    let (gs, session) = (event_loop-R e.shm t valid align h rs).carries e t ([], begin) in
    (gs, session, Session-Consistent valid align all session)

-- ===== src/EnvironmentThread/Handshake.antt =====
-- How the thread answers the welcome thread that has sent it a client's socket.
use garnd.Prelude.{
  ℕ, ◌≡◌, refl, ap, ◌⊎◌, inl, inr, Bool, true, Option, none, some, List, [], ◌∷◌, ◌++◌, All, arith,
  ◌==◌,
}
use garnd.Errors.{DetailedError}
use garnd.Protocols.{Garnshared}
use garnd.Io.{
  Call, Reply, done, Log, Kernel, Ensures, Ensures-mono, Io, Reply-cases, resume-Ensures,
  recover-Ensures,
}
use garnd.SocketSet
use garnd.SocketSet.{SocketSet, contains}
use garnd.SocketSet.Laws.{insert-contains_self, insert-contains_keeps}
use garnd.EnvironmentThread.{
  proceed, Handles, EnvThread, watch, receive_listeners, add_listener, respond, pass_result,
  handle_event,
}

-- The set contains all of these, and what it contained before.
abbrev pub Took : List ℕ → EnvThread → EnvThread → Type 0
Took fds e e' =
    All (λ fd. contains fd e'.sockets ≡ true) fds
    × ((fd : ℕ) → contains fd e.sockets ≡ true → contains fd e'.sockets ≡ true)

-- One socket could not be watched, and was closed; those before it were taken, those after it wait.
abbrev pub Stopped : List ℕ → EnvThread → EnvThread → Log → Type 0
Stopped fds e e' u =
    (before after : List ℕ) × (fd : ℕ) × (r : Reply ℕ) × (v : Log) × (fds ≡ before ++ fd ∷ after)
    × (e'.add_listener_rx ≡ after)
    × Took before e e'
    × (u ≡ (Call.close fd, r) ∷ v)

module _ ⦃k : Kernel⦄ where
  receive_listeners-Took :
      (fds : List ℕ) (e : EnvThread) (t : Log)
      → e.add_listener_rx ≡ fds
      → e.owner_alive ≡ true
      → Ensures
          (λ _ e' _. (e'.add_listener_rx ≡ []) × Took fds e e')
          (λ _ e' u. Stopped fds e e' u)
          (receive_listeners fds e t)
  unfolding receive_listeners watch
  receive_listeners-Took [] e t queue alive = rw alive (queue, (tt, λ fd h. h))
  receive_listeners-Took (fd ∷ fds) e t queue alive =
      elim (Reply-cases (k.answer t (Call.epoll_add fd))) [
        | inl (n, watched) ↦ rw watched (
            Ensures-mono (λ _ e' _. (e'.add_listener_rx ≡ []) × Took fds next e')
              (λ _ e' u. Stopped fds next e' u) _ _ (receive_listeners fds next _)
              (receive_listeners-Took fds next _ refl alive)
              (λ _ e' u (empty, (all, kept)). (
                empty,
                (
                  (kept fd (insert-contains_self fd e.sockets), all),
                  λ x h. kept x (insert-contains_keeps fd x e.sockets h),
                ),
              ))
              (λ _ e' u (before, after, bad, r, v, split, rest, (all, kept), closed). (
                fd ∷ before,
                after,
                bad,
                r,
                v,
                ap (λ xs. fd ∷ xs) split,
                rest,
                (
                  (kept fd (insert-contains_self fd e.sockets), all),
                  λ x h. kept x (insert-contains_keeps fd x e.sockets h),
                ),
                closed,
              )))
        | inr (n, refused) ↦ rw refused ([], fds, fd, _, _, refl, refl, (tt, λ x h. h), refl)
      ]
    where
      next : EnvThread
      next = record e { add_listener_rx = fds; sockets = SocketSet.insert fd e.sockets }

-- What the answer tells: with no error, everything that was sent has been taken. With an error, the
-- event could not be read and nothing has changed, or one socket was closed.
abbrev pub Told : Option DetailedError → EnvThread → EnvThread → Log → Type 0
Told none e e' u = (e'.add_listener_rx ≡ []) × Took e.add_listener_rx e e'
Told (some _) e e' u = (e' ≡ e) ⊎ Stopped e.add_listener_rx e e' u

-- The last call sends an answer that tells this.
abbrev pub Responded : EnvThread → EnvThread → Log → Type 0
Responded e e' u =
    (r : Option DetailedError) × (n : ℕ) × (v : Log) × (u ≡ (Call.send_response r, done n) ∷ v)
    × Told r e e' v

module _ ⦃k : Kernel⦄ where
  add_listener-Told :
      (h : Handles) (e : EnvThread) (t : Log)
      → e.owner_alive ≡ true
      → Ensures (λ _ e' u. Told none e e' u) (λ x e' u. Told (some x) e e' u) (add_listener h e t)
  unfolding add_listener
  add_listener-Told h e t alive =
      elim (Reply-cases (k.answer t (Call.eventfd_read h.add_listener_event))) [
        | inl (n, raised) ↦ rw raised (
            Ensures-mono _ _ _ _ (receive_listeners e.add_listener_rx e _)
              (receive_listeners-Took e.add_listener_rx e _ refl alive) (λ _ e' u taken. taken)
              (λ _ e' u stopped. inr stopped))
        | inr (n, unread) ↦ rw unread (inl refl)
      ]

  module _
      (sent : (t : Log) (r : Option DetailedError)
        → (n : ℕ) × (k.answer t (Call.send_response r) ≡ done n)) where
    respond-Responded :
        (r : Option DetailedError) (e e' : EnvThread) (t : Log)
        → Told r e e' t
        → Ensures (λ _ e'' u. Responded e e'' u) (λ _ _ _. ⊥) (respond r e' t)
    unfolding respond
    respond-Responded r e e' t told = rw (sent t r).1 (r, (sent t r).0, t, refl, told)

    pass_result-Responded :
        (m : Io EnvThread DetailedError (Unit {0})) (e : EnvThread) (t : Log)
        → Ensures (λ _ e' u. Told none e e' u) (λ x e' u. Told (some x) e e' u) (m e t)
        → Ensures (λ _ e' u. Responded e e' u) (λ _ _ _. ⊥) (pass_result m e t)
    unfolding pass_result
    pass_result-Responded m e t told =
        resume-Ensures (λ r e' u. Told r e e' u) (λ _ _ _. ⊥) _ _ _ respond
          (recover-Ensures (λ r e' u. Told r e e' u) (λ x e' u. Told (some x) e e' u) _ _ _ _
            (resume-Ensures (λ _ e' u. Told none e e' u) (λ x e' u. Told (some x) e e' u) _ _
              (m e t) _ told (λ _ e' u h. h) (λ _ e' u h. h))
            (λ _ e' u h. h) (λ _ e' u h. h))
          (λ r e' u h. respond-Responded r e e' u h) (λ _ e' u h. h)

    pub handle_event-Responded :
        ⦃g : Garnshared⦄ (h : Handles) (hung_up : Bool) (e : EnvThread) (t : Log)
        → e.owner_alive ≡ true
        → Ensures
            (λ flow e' u. (flow ≡ proceed) × Responded e e' u)
            (λ _ _ _. ⊥)
            (handle_event h (record { token = h.add_listener_event; hung_up = hung_up }) e t)
    unfolding handle_event
    handle_event-Responded h hung_up e t alive = rw same (
        resume-Ensures (λ _ e' u. Responded e e' u) (λ _ _ _. ⊥) _ _ _ _
          (pass_result-Responded (add_listener h) e t (add_listener-Told h e t alive))
          (λ _ e' u h. (refl, h)) (λ x _ _ _. absurd x))
      where
        same : (h.add_listener_event == h.add_listener_event) ≡ true
        same = ground arith

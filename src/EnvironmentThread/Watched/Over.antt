-- ===== src/EnvironmentThread/Watched/Over.antt =====
-- The thread when it is over: it has closed every socket that it has ever watched.
use garnd.Prelude.{
  ℕ, ◌≡◌, ◌≢◌, refl, Bool, Bool-cases, true, false, Option, none, some, List, [], ◌∷◌, arith, inl,
  inr, ◌⊎◌, ◌==◌,
}
use garnd.Errors.{DetailedError}
use garnd.Io.{
  Call, Reply, Log, Kernel, Io, Outcome, ok, err, panic, Allows, Carries, Carries-resume,
  Carries-recover, call-Carries, pure-Carries, resume, pure, ◌>>◌,
}
use garnd.Protocols.{Garnshared}
use garnd.Shm.{drop_allocator}
use garnd.Shm.Carrying.{drop_allocator-Carries}
use garnd.SocketSet.{SocketSet}
use garnd.SocketSet.Laws.{drop_sockets_leads, contains_nothing, contains_rest}
use garnd.EnvironmentThread.{
  Handles, EnvThread, Round, Flow, proceed, leave, watch_events, drop_locals, scoped, event_loop,
  loop_with_epoll, report_error_and_close,
}
use garnd.EnvironmentThread.Watched.{
  watched, HoldsWatched, report_error_and_close-HoldsWatched, event_loop-HoldsWatched,
  watched_before, adds,
}

-- Nothing is watched but the two events of the thread.
abbrev pub NothingWatched : Handles → Log → Type 0
NothingWatched h t = (fd : ℕ) → fd ≢ h.add_listener_event → fd ≢ h.drop_event → watched fd t ≡ false

HoldsWatched-NothingWatched : (h : Handles) (t : Log) → HoldsWatched h [] t → NothingWatched h t
HoldsWatched-NothingWatched h t p fd a b = elim (Bool-cases (watched fd t)) [
  | inl w ↦ ground (arith, p fd a b w, contains_nothing fd)
  | inr gone ↦ gone
]

close-HoldsWatched :
    (h : Handles) (fd : ℕ) (fds : SocketSet) (t : Log) (r : Reply ℕ)
    → HoldsWatched h (fd ∷ fds) t
    → HoldsWatched h fds ((Call.close fd, r) ∷ t)
close-HoldsWatched h fd fds t r p x a b w = elim (Bool-cases (fd == x)) [
  | inl same ↦ ground (arith, same, w)
  | inr other ↦ contains_rest fd x fds (p x a b (ground (arith, other, w))) other
]

module _ ⦃k : Kernel⦄ ⦃g : Garnshared⦄ (h : Handles) where
  R : EnvThread → Log → Type 0
  R e t = HoldsWatched h e.sockets t

  -- Where the thread has ended: its sockets are gone.
  abbrev Over : Outcome ⊥ Flow × EnvThread × Log → Type 0
  Over x = (x.0 ≡ ok proceed) ⊎ HoldsWatched h [] x.2

  dropped-R :
      (unwinding : Bool) (ss : SocketSet)
      → Carries {E = ⊥} (λ _ t. HoldsWatched h ss t) (drop_allocator unwinding)
  dropped-R unwinding ss =
      drop_allocator-Carries (HoldsWatched h ss)
        (λ c release r s t p fd a b w.
          p fd a b (watched_before fd c r t (ground (arith, release)) w))
        unwinding

  drop_locals-HoldsWatched :
      (unwinding : Bool) (epoll : ℕ) (e : EnvThread) (t : Log)
      → R e t
      → HoldsWatched h [] (drop_locals unwinding epoll e t).2
  unfolding drop_locals R
  drop_locals-HoldsWatched unwinding epoll e t p =
      drop_sockets_leads ⊥ (HoldsWatched h) (close-HoldsWatched h) e.sockets _ (
        (dropped-R unwinding e.sockets).carries e.shm _ (λ fd a b w.
          p fd a b (watched_before fd (Call.close epoll) (k.answer t (Call.close epoll)) t refl w)))

  leaving :
      (x : Outcome ⊥ (Unit {0}) × EnvThread × Log)
      → HoldsWatched h [] x.2
      → HoldsWatched h [] (resume x (λ _. pure leave)).2
  leaving (ok a, e, t) p = p
  leaving (err x, e, t) p = p
  leaving (panic, e, t) p = p

  scoped-Over :
      (epoll : ℕ) (m : Io EnvThread ⊥ Flow)
      → Carries R m
      → (e : EnvThread) (t : Log) → R e t
      → Over (scoped epoll m e t)
  unfolding scoped
  scoped-Over epoll m carried e t p = on (m e t) (carried.carries e t p)
    where
      on : (x : Outcome ⊥ Flow × EnvThread × Log) → R x.1 x.2 → Over (scoped epoll (λ _ _. x) e t)
      on (ok proceed, e', u) q = inl refl
      on (ok leave, e', u) q =
          inr (leaving (drop_locals false epoll e' u) (drop_locals-HoldsWatched false epoll e' u q))
      on (err x, e', u) q = absurd x
      on (panic, e', u) q = inr (drop_locals-HoldsWatched true epoll e' u q)

  loop-R : (rs : List Round) → Carries R (event_loop h rs)
  unfolding R
  loop-R rs = record { carries = λ e t p. event_loop-HoldsWatched h rs e t p }

  allows : (c : Call) → adds c ≡ false → Allows R c
  unfolding R
  allows c other r e t p fd a b w = p fd a b (watched_before fd c r t other w)

  watch_events-R : Carries R (watch_events h)
  unfolding watch_events R
  watch_events-R =
      Carries-resume R _ _ (call-Carries R (Call.epoll_add h.add_listener_event) first) (λ _.
        Carries-resume R _ _ (call-Carries R (Call.epoll_add h.drop_event) second)
          (λ _. pure-Carries R tt))
    where
      first : Allows R (Call.epoll_add h.add_listener_event)
      first r e t p fd a b w = p fd a b (ground (arith, a, w))

      second : Allows R (Call.epoll_add h.drop_event)
      second r e t p fd a b w = p fd a b (ground (arith, b, w))

  report-R : (x : DetailedError) → Carries {E = ⊥} R (report_error_and_close x h)
  unfolding R
  report-R x = record { carries = λ e t p. report_error_and_close-HoldsWatched h x e t p }

  loop_with_epoll-R : (rs : List Round) (epoll : ℕ) → Carries R (loop_with_epoll h rs epoll)
  unfolding loop_with_epoll
  loop_with_epoll-R rs epoll =
      Carries-resume R _ _
        (Carries-recover R _ _ (Carries-resume R _ _ watch_events-R (λ _. pure-Carries R none))
          (λ e. pure-Carries R (some e)))
        (λ failed. started failed)
    where
      started :
          (failed : Option DetailedError)
          → Carries R (elim failed as (λ _. Io EnvThread ⊥ Flow) [
            | none ↦ event_loop h rs
            | some e ↦ report_error_and_close e h >> pure leave
          ])
      started none = loop-R rs
      started (some e) =
          Carries-resume R (report_error_and_close e h) _ (report-R e) (λ _. pure-Carries R leave)

  -- From the creation of the epoll instance on, the thread waits for the next event, or it is over, by
  -- a return or a panic, and then watches nothing any more but its two events: it has closed every
  -- other descriptor that it has watched, since the call that watched it. The condition is that at the
  -- creation the set holds all that is watched, but for these two.
  pub scoped-loop_with_epoll :
      (rs : List Round) (epoll : ℕ) (e : EnvThread) (t : Log)
      → HoldsWatched h e.sockets t
      → let (o, _, u) = scoped epoll (loop_with_epoll h rs epoll) e t in
        (o ≡ ok proceed) ⊎ NothingWatched h u
  unfolding R
  scoped-loop_with_epoll rs epoll e t p =
      elim (scoped-Over epoll (loop_with_epoll h rs epoll) (loop_with_epoll-R rs epoll) e t p) [
        | inl waits ↦ inl waits
        | inr over ↦
            inr
              (HoldsWatched-NothingWatched h (scoped epoll (loop_with_epoll h rs epoll) e t).2 over)
      ]

-- ===== src/EnvironmentThread/Announced.antt =====
-- How an environment's thread ends: by its owner's wish, or with a word to its owner.
use garnd.Prelude.{
  ℕ, ◌≡◌, refl, ◌⊎◌, inl, inr, Bool-cases, List, [], ◌∷◌, ◌++◌, length, ◌==◌, ◌%◌, ◌^◌, ◌+◌,
}
use garnd.Errors.{DetailedError, system}
use garnd.Io.{
  Call, Reply, done, failed, Log, Kernel, Io, Outcome, ok, err, panic, resume, or_else, call, pure,
  send_error, send_all_errors, Reply-cases, Since, Since-refl, Since-trans, Grows, send_error-Grows,
  send_all_errors-Grows, Ensures, resume-returns, ◌>>=◌, ◌>>◌,
}
use garnd.Protocols.{Garnshared}
use garnd.EnvironmentThread.{
  Handles, EnvThread, EpollEvent, Round, Flow, proceed, leave, Thread, announce_env_close,
  report_error_and_close, serve, part, handle_event, handle_events, round, event_loop, is_empty,
  sockets_of, shm_of, pass_result, add_listener,
}
use garnd.Requests.{serve_client}
use garnd.SocketSet

-- The name has been sent to the owner, and then its event raised, or both have been tried.
abbrev pub Announced : Handles → Log → Type 0
Announced h u =
    (v : Log) × (r r' : Reply ℕ) × Since
      ((Call.eventfd_write h.close_env_event, r') ∷ (Call.send_close h.name, r) ∷ v) u

-- The event by which the owner asks for the end has been read.
abbrev pub Dismissed : Handles → Log → Type 0
Dismissed h u = (v : Log) × (r : Reply ℕ) × Since ((Call.eventfd_read h.drop_event, r) ∷ v) u

abbrev pub Told : Handles → Log → Type 0
Told h u = Announced h u ⊎ Dismissed h u

pub Told-Since : (h : Handles) (t u : Log) → Told h t → Since t u → Told h u
Told-Since h t u (inl (v, r, r', s)) since = inl (v, r, r', Since-trans _ t u s since)
Told-Since h t u (inr (v, r, s)) since = inr (v, r, Since-trans _ t u s since)

-- If the code returns to wait, nothing is said; if it returns to leave, the owner is told.
abbrev pub Parting : Handles → {S E : Type 0} → Outcome E Flow × S × Log → Type 0
Parting h (ok proceed, s, t) = Unit
Parting h (ok leave, s, t) = Told h t
Parting h (err e, s, t) = Unit
Parting h (panic, s, t) = Unit

module _ ⦃k : Kernel⦄ (h : Handles) {S : Type 0} where
  pub Parting-resume :
      {E A : Type 0} (x : Outcome E A × S × Log) (f : A → Io S E Flow)
      → ((a : A) (s : S) (t : Log) → Parting h (f a s t))
      → Parting h (resume x f)
  Parting-resume (ok a, s, t) f next = next a s t
  Parting-resume (err e, s, t) f next = tt
  Parting-resume (panic, s, t) f next = tt

  -- Code at whose return the owner is told.
  abbrev pub Tells : {E A : Type 0} → Outcome E A × S × Log → Type 0
  Tells (ok a, s, t) = Told h t
  Tells (err e, s, t) = Unit
  Tells (panic, s, t) = Unit

  pub Tells-resume :
      {E A B : Type 0} (x : Outcome E A × S × Log) (f : A → Io S E B)
      → ((a : A) (s : S) (t : Log) → Tells (f a s t))
      → Tells (resume x f)
  Tells-resume (ok a, s, t) f next = next a s t
  Tells-resume (err e, s, t) f next = tt
  Tells-resume (panic, s, t) f next = tt

  -- What is said before the last steps is said.
  pub Told-Tells :
      {E A : Type 0} (m : Io S E A) (s : S) (t : Log) → Told h t → Grows m → Tells (m s t)
  Told-Tells {E = E} {A = A} m s t told grows = ended (m s t) (grows.since s t)
    where
      ended : (x : Outcome E A × S × Log) → Since t x.2 → Tells x
      ended (ok a, s', u) since = Told-Since h t u told since
      ended (err e, s', u) since = tt
      ended (panic, s', u) since = tt

  pub Tells-leave :
      {E A : Type 0} (x : Outcome E A × S × Log) → Tells x → Parting h (resume x (λ _. pure leave))
  Tells-leave (ok a, s, t) told = told
  Tells-leave (err e, s, t) told = tt
  Tells-leave (panic, s, t) told = tt

  pub announce_lem :
      (E : Type 0) (s : S) (t : Log)
      → Ensures {E = E} (λ _ s' u. (s' ≡ s) × Told h u) (λ _ _ _. ⊥) (announce_env_close h s t)
  unfolding announce_env_close
  announce_lem E s t = elim (Reply-cases (k.answer t (Call.send_close h.name))) [
    | inl (n, e) ↦ rw e (raised (done n) [])
    | inr (n, e) ↦ rw e (raised (failed n) (system n ∷ []))
  ]
    where
      raised :
          (r : Reply ℕ) (es : List DetailedError)
          → Ensures {E = E}
              (λ _ s' u. (s' ≡ s) × Told h u)
              (λ _ _ _. ⊥)
              (resume
                (ok es, s, (Call.send_close h.name, r) ∷ t)
                (λ es'.
                  or_else
                    (call (Call.eventfd_write h.close_env_event) >> pure [])
                    (λ e. pure (e ∷ []))
                  >>= λ fs. pure (es' ++ fs)))
      raised r es =
          elim (Reply-cases
            (k.answer ((Call.send_close h.name, r) ∷ t) (Call.eventfd_write h.close_env_event))) [
              | inl (n, e) ↦ rw e (refl, inl (t, r, done n, Since-refl _))
              | inr (n, e) ↦ rw e (refl, inl (t, r, failed n, Since-refl _))
            ]

  pub report_error_and_close-Tells :
      (E : Type 0) (b : DetailedError) (s : S) (t : Log)
      → Tells (report_error_and_close {E = E} b h s t)
  unfolding report_error_and_close
  report_error_and_close-Tells E b s t = Tells-resume _ _ (λ es s' u.
      resume-returns (λ _ s'' v. (s'' ≡ s') × Told h v) Tells (announce_env_close h s' u) _
        (announce_lem E s' u)
        (λ fs s'' v (_, told).
          Told-Tells (send_all_errors (es ++ fs)) s'' v told (send_all_errors-Grows (es ++ fs))))

module _ ⦃k : Kernel⦄ ⦃g : Garnshared⦄ (h : Handles) where
  part-Parting : (fd : ℕ) (e : EnvThread) (t : Log) → Parting h (part h fd e t)
  unfolding part
  part-Parting fd e t = Parting-resume h (sockets_of (SocketSet.remove fd) e t) _ (λ _ s u.
      elim (Bool-cases (is_empty s.sockets)) [
        | inl last ↦ rw last (
            resume-returns (λ _ s' u'. (s' ≡ s) × Told h u') (Parting h) (announce_env_close h s u)
              _ (announce_lem h ⊥ s u)
              (λ es s' u' (_, told).
                Tells-leave h _
                  (Told-Tells h (send_all_errors es) s' u' told (send_all_errors-Grows es))))
        | inr others ↦ rw others tt
      ])

  dismissed_lem :
      (e : EnvThread) (t : Log)
      → Parting h {E = ⊥} (
          (or_else (call (Call.eventfd_read h.drop_event) >> pure tt) send_error >> pure leave) e t)
  dismissed_lem e t = elim (Reply-cases (k.answer t (Call.eventfd_read h.drop_event))) [
    | inl (n, got) ↦ rw got (inr (t, done n, Since-refl _))
    | inr (n, lost) ↦ rw lost (
        Tells-leave h _ (
          Told-Tells h (send_error (system n)) e _ (inr (t, failed n, Since-refl _))
            (send_error-Grows (system n))))
  ]

  handle_event-Parting :
      (event : EpollEvent) (e : EnvThread) (t : Log) → Parting h (handle_event h event e t)
  unfolding handle_event serve
  handle_event-Parting event e t = elim (Bool-cases (event.token == h.add_listener_event)) [
    | inl listener ↦
        rw listener (Parting-resume h (pass_result (add_listener h) e t) _ (λ _ _ _. tt))
    | inr other ↦ elim (Bool-cases (event.token == h.drop_event)) [
      | inl drop ↦ rw (other, drop) (dismissed_lem e t)
      | inr client ↦ elim (Bool-cases event.hung_up) [
        | inl gone ↦ simp (other, client, gone) (part-Parting (event.token % 2 ^ 32) e t)
        | inr asks ↦
            simp (other, client, asks)
              (Parting-resume h
                (or_else (shm_of (serve_client (event.token % 2 ^ 32))) send_all_errors e t) _
                (λ _ _ _. tt))
      ]
    ]
  ]

  -- One step of a loop, and the rest of it.
  flow-Parting :
      (x : Outcome ⊥ Flow × EnvThread × Log) (m : Thread Flow)
      → Parting h x
      → ((e : EnvThread) (t : Log) → Parting h (m e t))
      → Parting h (
          resume x
            (λ flow. elim flow as (λ _. Io EnvThread ⊥ Flow) [ proceed ↦ m | leave ↦ pure leave ]))
  flow-Parting (ok proceed, e, t) m told next = next e t
  flow-Parting (ok leave, e, t) m told next = told
  flow-Parting (err b, e, t) m told next = tt
  flow-Parting (panic, e, t) m told next = tt

  handle_events-Parting :
      (events : List EpollEvent) (e : EnvThread) (t : Log) → Parting h (handle_events h events e t)
  unfolding handle_events
  handle_events-Parting [] e t = tt
  handle_events-Parting (event ∷ events) e t =
      flow-Parting (handle_event h event e t) (handle_events h events)
        (handle_event-Parting event e t) (handle_events-Parting events)

  round-Parting : (r : Round) (e : EnvThread) (t : Log) → Parting h (round h r e t)
  unfolding round
  round-Parting r e t = elim (Reply-cases (k.answer t (Call.epoll_wait (length e.sockets + 2)))) [
    | inl (n, got) ↦ rw got (handle_events-Parting r.events _ _)
    | inr (n, lost) ↦ rw lost (Tells-leave h _ (report_error_and_close-Tells h ⊥ (system n) _ _))
  ]

  pub event_loop-Parting :
      (rs : List Round) (e : EnvThread) (t : Log) → Parting h (event_loop h rs e t)
  unfolding event_loop
  event_loop-Parting [] e t = tt
  event_loop-Parting (r ∷ rs) e t =
      flow-Parting (round h r e t) (event_loop h rs) (round-Parting r e t) (event_loop-Parting rs)

-- ===== src/WelcomeThread/Life/Joined.antt =====
-- The whole life of the welcome thread: it ends with a word to main, and with all threads joined.
use garnd.Prelude.{
  ℕ, ◌+◌, ◌⊎◌, ◌≡◌, refl, ◌∙◌, ap, inl, inr, Bool, false, List, [], ◌∷◌, ◌++◌, length, arith, Dict,
  All,
}
use mathlib.Core.List.{append_assoc}
use garnd.Errors.{system, reload_request}
use garnd.Io.{
  Call, Reply, done, Log, Kernel, Ensures, Ensures-mono, Io, Outcome, ok, err, panic, Reply-cases,
  ErrorsOpen, send_error, Since, within-Ensures, resume-Ensures,
}
use garnd.Protocols.{Garnshared}
use garnd.Environment.{Environment, drop_environment}
use garnd.Environment.Handover.{Ends}
use garnd.Environment.Threads.{spawned, joined, drop_environment_log}
use garnd.WelcomeThread.{WelcomeThread, Round, Sources, Flow, proceed, leave, event_loop, give_up}
use garnd.WelcomeThread.Threads.{Accounted}
use garnd.WelcomeThread.Threads.Loop.{PollSucceeds, Told, Calm, Ended, event_loop-Ended}
use garnd.WelcomeThread.Life.{
  drop_environments, drop_locals, scoped, with_close_event, welcome_thread_main,
}

-- The welcome socket has been closed last.
abbrev pub Closed : ℕ → Log → Type 0
Closed socket u = (r : Reply ℕ) × (v : Log) × (u ≡ (Call.close socket, r) ∷ v)

-- The close event can be made, the socket listens, and no poll fails.
abbrev pub Runs : Kernel → ℕ → Type 0
Runs k socket =
    ((t : Log) → (n : ℕ) × (k.answer t Call.eventfd_new ≡ done n))
    × ((t : Log) → (n : ℕ) × (k.answer t (Call.listen socket) ≡ done n))
    × PollSucceeds k

-- The thread waits for an event, and `C` holds; or it is over, and `C` does not hold or a call has failed
-- that it cannot do without: it had told main, all threads that it started have been joined, and its
-- socket is closed.
abbrev pub Over : ⦃k : Kernel⦄ → Log → ℕ → Type 0 → Flow → Log → Type 0
Over ⦃k⦄ t₀ socket C flow u =
    ((flow ≡ proceed) × C)
    ⊎ ((flow ≡ leave)
        × ¬ (Runs k socket × C)
        × ((v : Log) × Told v × Since v u)
        × (spawned u + joined t₀ ≡ joined u + spawned t₀)
        × Closed socket u)

module _ ⦃k : Kernel⦄ (ends : Ends k) where
  drop_environments_log :
      (E : Type 0) (b : Bool) (envs : Dict Environment) (w : WelcomeThread) (t : Log)
      → Ensures {E = E}
          (λ _ w' u.
            (w' ≡ w) × (spawned u ≡ spawned t) × (joined u ≡ joined t + length envs) × Since t u)
          (λ _ _ _. ⊥)
          (drop_environments b envs w t)
  unfolding drop_environments
  drop_environments_log E b [] w t = (refl, refl, omega arith, ([], refl))
  drop_environments_log E b ((name, env) ∷ envs) w t =
      resume-Ensures
        (λ _ w' u.
          (w' ≡ w)
          × (n m : ℕ) × (u
              ≡ (Call.join_thread env.thread, done m)
                ∷ (Call.eventfd_write env.drop_event, done n)
                ∷ t))
        (λ _ _ _. ⊥) _ _ (drop_environment b env w t) _ (drop_environment_log E ends b env w t)
        (λ _ w' u (e, n, m, f). rw e (
          Ensures-mono
            (λ _ w'' v.
              (w'' ≡ w) × (spawned v ≡ spawned u) × (joined v ≡ joined u + length envs) × Since u v)
            (λ _ _ _. ⊥) _ _ (drop_environments b envs w u) (drop_environments_log E b envs w u)
            (λ _ w'' v (e', a, j, (x, since)). (
              e',
              a ∙ (rw f refl),
              j ∙ (rw f (omega arith)),
              (
                x
                    ++ (Call.join_thread env.thread, done m)
                      ∷ (Call.eventfd_write env.drop_event, done n)
                      ∷ [],
                simp append_assoc (since ∙ ap (λ y. x ++ y) f),
              ),
            ))
            (λ _ _ _ x. x)))
        (λ _ _ _ x. x)

  drop_locals_log :
      (E : Type 0) (b : Bool) (socket : ℕ) (w : WelcomeThread) (t : Log)
      → Ensures {E = E}
          (λ _ _ u.
            (spawned u ≡ spawned t)
            × (joined u ≡ joined t + length w.environments)
            × Since t u
            × Closed socket u)
          (λ _ _ _. ⊥)
          (drop_locals b socket w t)
  unfolding drop_locals
  drop_locals_log E b socket w t =
      closed (drop_environments b w.environments none_left t)
        (drop_environments_log E b w.environments none_left t)
    where
      none_left : WelcomeThread
      none_left = record { environments = []; close_env_rx = [] }

      closed :
          (x : Outcome E (Unit {0}) × WelcomeThread × Log)
          → Ensures
              (λ _ w' u.
                (w' ≡ none_left)
                × (spawned u ≡ spawned t)
                × (joined u ≡ joined t + length w.environments)
                × Since t u)
              (λ _ _ _. ⊥)
              x
          → Ensures
              (λ _ _ u.
                (spawned u ≡ spawned t)
                × (joined u ≡ joined t + length w.environments)
                × Since t u
                × Closed socket u)
              (λ _ _ _. ⊥)
              (x.0, x.1, (Call.close socket, k.answer x.2 (Call.close socket)) ∷ x.2)
      closed (ok _, w', u) (e, n, m, (x, since)) = (
        n,
        m,
        (
          (Call.close socket, k.answer u (Call.close socket)) ∷ x,
          ap (λ y. (Call.close socket, k.answer u (Call.close socket)) ∷ y) since,
        ),
        (_, u, refl),
      )
      closed (err _, w', u) h = absurd h
      closed (panic, w', u) h = absurd h

  -- Leaving the body joins what the map holds.
  scoped-Over :
      (socket : ℕ) (t₀ : Log) (C : Type 0) (w : WelcomeThread) (t : Log)
      (m : Io WelcomeThread ⊥ Flow)
      → Ensures (λ flow w' u. Accounted t₀ w' u × Ended C flow u) (λ _ _ _. ⊥) (m w t)
      → Ensures {E = ⊥} (λ flow _ u. Over t₀ socket C flow u) (λ _ _ _. ⊥) (scoped socket m w t)
  unfolding scoped
  scoped-Over socket t₀ C w t m h = over (m w t) h
    where
      over :
          (x : Outcome ⊥ Flow × WelcomeThread × Log)
          → Ensures (λ flow w' u. Accounted t₀ w' u × Ended C flow u) (λ _ _ _. ⊥) x
          → Ensures {E = ⊥}
              (λ flow _ u. Over t₀ socket C flow u)
              (λ _ _ _. ⊥)
              (scoped socket (λ _ _. x) w t)
      over (ok proceed, w', u) (a, inl waits) = inl waits
      over (ok proceed, w', u) (a, inr (left, told, why)) = cc
      over (ok leave, w', u) (a, inl (goes, c)) = cc
      over (ok leave, w', u) (a, inr (left, told, why)) =
          resume-Ensures
            (λ _ _ v.
              (spawned v ≡ spawned u)
              × (joined v ≡ joined u + length w'.environments)
              × Since u v
              × Closed socket v)
            (λ _ _ _. ⊥) _ _ (drop_locals false socket w' u) _ (drop_locals_log ⊥ false socket w' u)
            (λ _ _ v (n, m, since, closed). inr (
              refl,
              (λ ((_, _, polls), c). why polls c),
              (u, told, since),
              omega (arith, a.count, n, m),
              closed,
            ))
            (λ _ _ _ x. x)
      over (err _, w', u) h = absurd h
      over (panic, w', u) h = absurd h

module _ ⦃k : Kernel⦄ ⦃g : Garnshared⦄ (ends : Ends k) (open_errors : ErrorsOpen k) where
  with_close_event-Over :
      (src : Sources) (rs : List Round) (w : WelcomeThread) (t₀ t : Log)
      → Accounted t₀ w t
      → w.environments ≡ []
      → Ensures
          (λ flow _ u. Over t₀ src.welcome_socket (All Calm rs) flow u)
          (λ _ _ _. ⊥)
          (with_close_event src rs w t)
  unfolding with_close_event give_up send_error
  with_close_event-Over src rs w t₀ t a empty =
      elim (Reply-cases (k.answer t (Call.listen src.welcome_socket))) [
        | inl (n, listens) ↦ rw listens (
            scoped-Over ends src.welcome_socket t₀ (All Calm rs) w _ (event_loop src rs) (
              event_loop-Ended ends open_errors t₀ src rs w _
                (record { distinct = a.distinct; count = a.count })))
        | inr (n, lost) ↦
            rw (lost, (open_errors _ (system n)).1, (open_errors _ reload_request).1)
              (inr (
                refl,
                (λ ((_, listens, _), _). cc (lost, (listens _).1)),
                (_, (reload_request, _, _, refl, inr refl), (_ ∷ _ ∷ [], refl)),
                omega (arith, a.count, ap length empty),
                (_, _, refl),
              ))
      ]

  pub welcome_thread_main-Over :
      {S : Type 0} (welcome_socket shutdown_event reload_event : ℕ) (rs : List Round) (s : S)
      (t : Log)
      → Ensures
          (λ flow _ u. Over t welcome_socket (All Calm rs) flow u)
          (λ _ _ _. ⊥)
          (welcome_thread_main welcome_socket shutdown_event reload_event rs s t)
  unfolding welcome_thread_main give_up send_error
  welcome_thread_main-Over welcome_socket shutdown_event reload_event rs s t =
      elim (Reply-cases (k.answer t Call.eventfd_new)) [
        | inl (fd, made) ↦ rw made (
            within-Ensures (λ flow u. Over t welcome_socket (All Calm rs) flow u) _ s
              (with_close_event-Over (sources fd) rs fresh t ((Call.eventfd_new, done fd) ∷ t)
                (record { distinct = tt; count = omega arith }) refl))
        | inr (n, lost) ↦
            rw (lost, (open_errors _ (system n)).1, (open_errors _ reload_request).1)
              (inr (
                refl,
                (λ ((makes, _, _), _). cc (lost, (makes t).1)),
                (_, (reload_request, _, _, refl, inr refl), (_ ∷ [], refl)),
                omega arith,
                (_, _, refl),
              ))
      ]
    where
      fresh : WelcomeThread
      fresh = record { environments = []; close_env_rx = [] }

      sources : ℕ → Sources
      sources fd = record {
        shutdown_event = shutdown_event;
        reload_event = reload_event;
        close_env_event = fd;
        welcome_socket = welcome_socket;
      }

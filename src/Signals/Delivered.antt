-- ===== src/Signals/Delivered.antt =====
-- The signals reach the events that the welcome thread polls, across all reloads.
use garnd.Prelude.{
  subst, sym, ◌∙◌, ap, refl, All, Bool, inl, inr, ◌⊎◌, false, [], ◌++◌, ℕ, ◌≡◌, true, Option, none,
  some, ◌∷◌, arith, ◌==◌, if◌then◌else◌,
}
use garnd.Errors.{DetailedError}
use garnd.Io.{
  termination_signal_handler, reload_signal_handler, Reply, done, Call, Log, Kernel, Ensures, ok,
  Ensures-mono, Reply-cases, call, pure, ◌>>=◌, ◌>>◌,
}
use garnd.Signals.{
  sigterm, sigint, run_handler, by_handler, handler_of, Statics, sighup, setup_events,
  adopt_shutdown_event, adopt_reload_event, termination_or_reload_handler, on_signal,
}

-- Which of the two descriptors is used: an earlier one, or the new one.
abbrev pub adopted : Option ℕ → ℕ → ℕ
adopted none new = new
adopted (some earlier) new = earlier

-- The call by which a new descriptor is closed, where there is an earlier one.
abbrev pub discarded : Option ℕ → ℕ → Reply ℕ → Log → Log
discarded none new r t = t
discarded (some _) new r t = (Call.close new, r) ∷ t

-- The calls of `setup_events`, and the events that come of them.
abbrev pub SetUp : Statics → ℕ × ℕ → Statics → Log → Log → Type 0
SetUp st (shutdown_event, reload_event) st' t u =
    (new_shutdown_event new_reload_event a b c : ℕ) × (x y : Reply ℕ) × (shutdown_event
      ≡ adopted st.shutdown_event_for_signal new_shutdown_event)
    × (reload_event ≡ adopted st.reload_event_for_signal new_reload_event)
    × (st' ≡ record {
      shutdown_event_for_signal = some shutdown_event;
      reload_event_for_signal = some reload_event;
    })
    × (u
        ≡ (Call.sigaction sighup reload_signal_handler, done c)
          ∷ (Call.sigaction sigint termination_signal_handler, done b)
          ∷ (Call.sigaction sigterm termination_signal_handler, done a)
          ∷ discarded st.reload_event_for_signal new_reload_event y (
              discarded st.shutdown_event_for_signal new_shutdown_event x (
                (Call.eventfd_new, done new_reload_event)
                ∷ (Call.eventfd_new, done new_shutdown_event)
                ∷ t)))

-- The signals that the daemon handles.
abbrev pub IsHandled : ℕ → Type 0
IsHandled signal = (signal ≡ sigterm) ⊎ (signal ≡ sigint) ⊎ (signal ≡ sighup)

abbrev sets_handler : Call → Bool
sets_handler (Call.sigaction _ _) = true
sets_handler _ = false

abbrev pub SetsNone : Call × Reply ℕ → Type 0
SetsNone (c, _) = sets_handler c ≡ false

-- The signal is written to its event, and the process goes on.
abbrev pub Delivers : ⦃k : Kernel⦄ → ℕ → ℕ × ℕ → Statics → Log → Type 0
Delivers ⦃k⦄ signal (shutdown_event, reload_event) st t =
    let fd = if signal == sighup then reload_event else shutdown_event in
    on_signal {E = ⊥} signal st t
    ≡ (ok true, st, (Call.eventfd_write fd, k.answer t (Call.eventfd_write fd)) ∷ t)

-- The events that the statics hold stay there.
abbrev pub Stays : Statics → Statics → Type 0
Stays st st' =
    ((fd : ℕ) → st.shutdown_event_for_signal ≡ some fd → st'.shutdown_event_for_signal ≡ some fd)
    × ((fd : ℕ) → st.reload_event_for_signal ≡ some fd → st'.reload_event_for_signal ≡ some fd)

module _ ⦃k : Kernel⦄ where
  -- The three handlers are set, or one of the calls fails.
  handlers_lem :
      (s r : ℕ) (st : Statics) (t : Log)
      → Ensures {E = DetailedError} {A = ℕ × ℕ}
          (λ events st' u.
            (events ≡ (s, r))
            × (st' ≡ st)
            × (a b c : ℕ) × (u
                ≡ (Call.sigaction sighup reload_signal_handler, done c)
                  ∷ (Call.sigaction sigint termination_signal_handler, done b)
                  ∷ (Call.sigaction sigterm termination_signal_handler, done a)
                  ∷ t))
          (λ _ st' _. st' ≡ st)
          ((do
            call (Call.sigaction sigterm termination_signal_handler)
            call (Call.sigaction sigint termination_signal_handler)
            call (Call.sigaction sighup reload_signal_handler)
            pure (s, r))
            st t)
  handlers_lem s r st t = ground arith

  -- Both events are adopted.
  installed :
      (o₁ o₂ : Option ℕ) (s r new_s new_r : ℕ) (x y : Reply ℕ) (t : Log)
      → s ≡ adopted o₁ new_s
      → r ≡ adopted o₂ new_r
      → let st : Statics = record {
        shutdown_event_for_signal = o₁;
        reload_event_for_signal = o₂;
      } in
        let st₁ : Statics = record {
          shutdown_event_for_signal = some s;
          reload_event_for_signal = some r;
        } in
        Stays st st₁
        → Ensures {E = DetailedError} {A = ℕ × ℕ}
            (λ events st' u. SetUp st events st' t u)
            (λ _ st' _. Stays st st')
            ((do
              call (Call.sigaction sigterm termination_signal_handler)
              call (Call.sigaction sigint termination_signal_handler)
              call (Call.sigaction sighup reload_signal_handler)
              pure (s, r))
              st₁
              (discarded o₂ new_r y (
                discarded o₁ new_s x
                  ((Call.eventfd_new, done new_r) ∷ (Call.eventfd_new, done new_s) ∷ t))))
  installed o₁ o₂ s r new_s new_r x y t p q stays =
      Ensures-mono _ _ (λ events st' u. SetUp st events st' t u) (λ _ st' _. Stays st st') _
        (handlers_lem s r st₁ _)
        (λ events st' u (e, f, a, b, c, g).
          subst (λ z. SetUp st z st' t u) (sym e) (new_s, new_r, a, b, c, x, y, p, q, f, g))
        (λ _ st' _ f. subst (λ z. Stays st z) (sym f) stays)
    where
      st : Statics
      st = record { shutdown_event_for_signal = o₁; reload_event_for_signal = o₂ }

      st₁ : Statics
      st₁ = record { shutdown_event_for_signal = some s; reload_event_for_signal = some r }

  -- Both events are made.
  made_lem :
      (new_s new_r : ℕ) (o₁ o₂ : Option ℕ) (t : Log)
      → let st : Statics = record {
        shutdown_event_for_signal = o₁;
        reload_event_for_signal = o₂;
      } in
        let v : Log = (Call.eventfd_new, done new_r) ∷ (Call.eventfd_new, done new_s) ∷ t in
        Ensures
          (λ events st' u. SetUp st events st' t u)
          (λ _ st' _. Stays st st')
          ((do
            s ← adopt_shutdown_event new_s o₁
            r ← adopt_reload_event new_r o₂
            call (Call.sigaction sigterm termination_signal_handler)
            call (Call.sigaction sigint termination_signal_handler)
            call (Call.sigaction sighup reload_signal_handler)
            pure (s, r))
            st v)
  unfolding adopt_shutdown_event adopt_reload_event
  made_lem new_s new_r none none t =
      installed none none new_s new_r new_s new_r (done 0) (done 0) t refl refl
        ((λ fd h. cc h), (λ fd h. cc h))
  made_lem new_s new_r none (some r) t =
      installed none (some r) new_s r new_s new_r (done 0) _ t refl refl
        ((λ fd h. cc h), (λ fd h. h))
  made_lem new_s new_r (some s) none t =
      installed (some s) none s new_r new_s new_r _ (done 0) t refl refl
        ((λ fd h. h), (λ fd h. cc h))
  made_lem new_s new_r (some s) (some r) t =
      installed (some s) (some r) s r new_s new_r _ _ t refl refl ((λ fd h. h), (λ fd h. h))

  setup_lem :
      (o₁ o₂ : Option ℕ) (t : Log)
      → let st : Statics = record {
        shutdown_event_for_signal = o₁;
        reload_event_for_signal = o₂;
      } in
        Ensures
          (λ events st' u. SetUp st events st' t u)
          (λ _ st' _. Stays st st')
          (setup_events st t)
  unfolding setup_events
  setup_lem o₁ o₂ t = elim (Reply-cases (k.answer t Call.eventfd_new)) [
    | inl (a, e) ↦ elim (Reply-cases (k.answer ((Call.eventfd_new, done a) ∷ t) Call.eventfd_new)) [
      | inl (b, f) ↦ rw (e, f) (made_lem a b o₁ o₂ t)
      | inr (n, f) ↦ rw (e, f) ((λ fd h. h), (λ fd h. h))
    ]
    | inr (n, e) ↦ rw e ((λ fd h. h), (λ fd h. h))
  ]

  -- Calls that set no handler leave those that are set.
  handler_of_keeps :
      (signal : ℕ) (w u : Log) → All SetsNone w → handler_of signal (w ++ u) ≡ handler_of signal u
  unfolding handler_of
  handler_of_keeps signal [] u none_set = refl
  handler_of_keeps signal ((c, r) ∷ w) u (other, none_set) =
      ground (arith, other, handler_of_keeps signal w u none_set)

  handler_of-SetUp :
      (signal a b c : ℕ) (t : Log)
      → IsHandled signal
      → handler_of signal (
          (Call.sigaction sighup reload_signal_handler, done c)
          ∷ (Call.sigaction sigint termination_signal_handler, done b)
          ∷ (Call.sigaction sigterm termination_signal_handler, done a)
          ∷ t)
        ≡ some (if signal == sighup then reload_signal_handler else termination_signal_handler)
  unfolding handler_of
  handler_of-SetUp signal a b c t which = ground (arith, which)

  on_signal-SetUp :
      (signal : ℕ) (st st' : Statics) (shutdown_event reload_event : ℕ) (t u w : Log)
      → IsHandled signal
      → All SetsNone w
      → SetUp st (shutdown_event, reload_event) st' t u
      → Delivers signal (shutdown_event, reload_event) st' (w ++ u)
  unfolding on_signal by_handler run_handler termination_or_reload_handler
  on_signal-SetUp signal st st' shutdown_event reload_event t u w which none_set
        (_, _, a, b, c, _, _, _, _, same, calls) =
      ground (arith, same, handler)
    where
      handler :
          handler_of signal (w ++ u)
          ≡ some (if signal == sighup then reload_signal_handler else termination_signal_handler)
      handler =
          handler_of_keeps signal w u none_set
          ∙ ap (handler_of signal) calls
          ∙ handler_of-SetUp signal a b c _ which

  -- `setup_events` never panics. If it returns the two events, each is the event of the start before, if
  -- there was one, so that a request made during a reload is not lost, and the new one otherwise. Its
  -- calls are the creation of two events, the closing of a new one exactly where there was an earlier
  -- one, and the three calls that set the handlers. From then on, whatever is called that sets no
  -- handler, every SIGHUP is written to the reload event and every SIGTERM and SIGINT to the shutdown
  -- event, and the process goes on. If it fails, the statics keep the events that they held.
  pub setup_events-Delivers :
      (st : Statics) (t : Log) (signal : ℕ) (w : Log)
      → IsHandled signal
      → All SetsNone w
      → Ensures
          (λ events st' u. SetUp st events st' t u × Delivers signal events st' (w ++ u))
          (λ _ st' _. Stays st st')
          (setup_events st t)
  setup_events-Delivers st t signal w which none_set =
      Ensures-mono (λ events st' u. SetUp st events st' t u) (λ _ st' _. Stays st st') _ _
        (setup_events st t) (setup_lem st.shutdown_event_for_signal st.reload_event_for_signal t)
        (λ (s, r) st' u set_up.
          (set_up, on_signal-SetUp signal st st' s r t u w which none_set set_up))
        (λ _ _ _ x. x)

-- ===== src/Main/Awaited.antt =====
-- The welcome thread and main: what the one sends through the error channel ends the other's turn.
use garnd.Prelude.{ℕ, ◌≡◌, refl, sym, ap, ◌∙◌, ◌≢◌, ◌⊎◌, inl, inr, List, [], ◌∷◌, ◌++◌, All, arith}
use mathlib.Core.List.{append-nil, append_assoc}
use garnd.Errors.{DetailedError, shutdown_signal, reload_request}
use garnd.Io.{
  Call, Reply, done, Log, Kernel, Outcome, ok, err, panic, Ensures, Ensures-mono, ErrorsOpen, Since,
}
use garnd.CircuitBreaker.{Verdict, instant_exit, reload, circuit_breaker}
use garnd.Protocols.{Garnshared}
use garnd.Environment.Handover.{Ends}
use garnd.WelcomeThread.{Round, Flow, leave}
use garnd.WelcomeThread.Life.{welcome_thread_main}
use garnd.WelcomeThread.Life.Joined.{Over, welcome_thread_main-Over}
use garnd.WelcomeThread.Threads.Loop.{Told, Calm}
use garnd.Main.{
  Globals, Life, Kind, shutdown, reload_wish, other, kind, Received, stopping, reloading, killed,
  waiting, Next, turn,
}
use garnd.Main.Signalled.{Serves, first_signal, decide, verdict}
use garnd.Main.Finishing.{Finished, left}
use garnd.Signals.Descriptors.{Ledger}
use garnd.Main.Turn.{Turned, turn-Turned}

-- What a call puts into the error channel.
abbrev error_of : Call → Reply ℕ → List DetailedError
error_of (Call.send_error e) (done _) = e ∷ []
error_of _ _ = []

-- The errors in the channel that a log has filled, the first one first.
abbrev pub sent_errors : Log → List DetailedError
sent_errors [] = []
sent_errors ((c, r) ∷ t) = sent_errors t ++ error_of c r

sent_errors-append : (x v : Log) → sent_errors (x ++ v) ≡ sent_errors v ++ sent_errors x
sent_errors-append [] v = sym (append-nil (sent_errors v))
sent_errors-append ((c, r) ∷ x) v =
    ap (λ es. es ++ error_of c r) (sent_errors-append x v)
    ∙ append_assoc (sent_errors v) (sent_errors x) (error_of c r)

first_signal-append :
    (es fs : List DetailedError) → first_signal es ≢ other → first_signal (es ++ fs) ≢ other
first_signal-append [] fs h = absurd (h refl)
first_signal-append (e ∷ es) fs h = ground (arith, first_signal-append es fs)

first_signal-last :
    (es : List DetailedError) (e : DetailedError)
    → kind e ≢ other
    → first_signal (es ++ e ∷ []) ≢ other
first_signal-last [] e h = ground (arith)
first_signal-last (f ∷ es) e h = ground (arith, first_signal-last es e h)

-- A word to main stands in the channel for good.
Told-sent_errors : (v u : Log) → Told v → Since v u → first_signal (sent_errors u) ≢ other
unfolding kind
Told-sent_errors v u (e, n, w, told, last) (x, since) =
    rw (since, sent_errors-append x v)
      (first_signal-append (sent_errors v) (sent_errors x)
        (rw told (first_signal-last (sent_errors w) e (signal last))))
  where
    signal : (e ≡ shutdown_signal) ⊎ (e ≡ reload_request) → kind e ≢ other
    signal (inl s) = rw s (λ q. cc)
    signal (inr s) = rw s (λ q. cc)

-- With a signal the turn does not wait.
verdict_ends : (g : Globals) (v : Verdict) → (verdict g v).0 ≢ Received.waiting
verdict_ends g instant_exit = λ q. cc
verdict_ends g (reload breaker) = λ q. cc

decide_ends :
    (g : Globals) (life : Life) (c : Kind)
    → c ≢ other
    → (decide g life.clock c).0 ≢ Received.waiting
decide_ends g life shutdown h = λ q. cc
decide_ends g life reload_wish h = verdict_ends g (circuit_breaker g.breaker life.clock)
decide_ends g life other h = absurd (h refl)

next_of_end :
    (thread : ℕ) (life : Life) (got : Received) (next : Next) (t u : Log)
    → got ≢ Received.waiting
    → Finished thread life got next t u
    → next ≢ Next.waiting
next_of_end thread life stopping next t u h (e, _) = rw e (λ q. cc)
next_of_end thread life reloading next t u h (e, _) = rw e (λ q. cc)
next_of_end thread life killed next t u h (e, _) = rw e (λ q. cc)
next_of_end thread life waiting next t u h f = absurd (h refl)

end_of_turn :
    ⦃k : Kernel⦄ (life : Life) (g g' : Globals) (t u : Log) (next : Next)
    → first_signal life.received ≢ other
    → Turned 0 life g t next g' u
    → next ≢ Next.waiting
end_of_turn life g g' t u next h (inl (_, e, _, _, _)) = rw e (λ q. cc)
end_of_turn life g g' t u next h (inr (_, inl (e, _, _, _, _, _))) = rw e (λ q. cc)
end_of_turn life g g' t u next h (inr (_, inr (r, g₁, v, begun, inr (e, _, _, _, _, _)))) =
    rw e (λ q. cc)
end_of_turn life g g' t u next h (inr (_, inr (r, g₁, v, begun, inl (n, same, finished)))) =
    next_of_end r.state_data.welcome_thread life _ next _ u
      (decide_ends g₁ life (first_signal life.received) h) finished

-- The thread has ended, and main's turn comes to its end.
module _ ⦃k : Kernel⦄ ⦃g : Garnshared⦄ (ends : Ends k) (errors : ErrorsOpen k)
    (serves : Serves k) where
  -- If the environments' threads can be told to end and have not panicked, main holds the error channel
  -- and stderr can be written: once the shutdown or the reload event is raised, the welcome thread ends
  -- without a panic, and a turn of main that receives what was sent by then does not panic and does not
  -- wait for more.
  pub turn-welcome_thread_main :
      {S : Type 0} (welcome_socket shutdown_event reload_event : ℕ) (rs : List Round) (s : S)
      (life : Life) (globals : Globals) (t v : Log)
      → ¬ (All Calm rs)
      → let (_, _, u) = welcome_thread_main welcome_socket shutdown_event reload_event rs s t in
        life.received ≡ sent_errors u
        → Ensures
            (λ flow _ _. flow ≡ leave)
            (λ _ _ _. ⊥)
            (welcome_thread_main welcome_socket shutdown_event reload_event rs s t)
          × Ensures (λ next _ _. next ≢ Next.waiting) (λ _ _ _. ⊥) (turn life globals v)
  turn-welcome_thread_main {S} welcome_socket shutdown_event reload_event rs s life globals t v
        busy =
      joined (welcome_thread_main welcome_socket shutdown_event reload_event rs s t)
        (welcome_thread_main-Over ends errors welcome_socket shutdown_event reload_event rs s t)
    where
      joined :
          (x : Outcome ⊥ Flow × S × Log)
          → Ensures (λ flow _ u. Over t welcome_socket (All Calm rs) flow u) (λ _ _ _. ⊥) x
          → life.received ≡ sent_errors x.2
          → Ensures (λ flow _ _. flow ≡ leave) (λ _ _ _. ⊥) x
            × Ensures (λ next _ _. next ≢ Next.waiting) (λ _ _ _. ⊥) (turn life globals v)
      joined (ok flow, s', u) (inl (_, calm)) e = absurd (busy calm)
      joined (ok flow, s', u) (inr (gone, _, (w, told, since), _, _)) e = (
        gone,
        Ensures-mono
            (λ next g' u'.
              Turned 0 life globals v next g' u'
              × Ledger 0 0 (left next) globals.events v g'.events u')
            (λ _ _ _. ⊥) _ _ (turn life globals v) (turn-Turned serves 0 life globals v errors)
            (λ next g' u' (turned, _).
              end_of_turn life globals g' v u' next (rw e (Told-sent_errors w u told since)) turned)
            (λ _ _ _ x. x),
      )
      joined (err e, s', u) h _ = absurd h
      joined (panic, s', u) h _ = absurd h

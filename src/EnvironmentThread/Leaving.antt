-- ===== src/EnvironmentThread/Leaving.antt =====
-- How an environment's event loop is left, and what holds after that.
use garnd.Prelude.{◌<◌, ◌≡◌, refl, ◌⊎◌, inl, inr, true, List, String}
use garnd.Errors.{DetailedError}
use garnd.Io.{
  done, Log, Kernel, Io, Outcome, ok, err, panic, Ensures, resume-Ensures, resume, ErrorsOpen,
  send_all_errors-Open, pure, send_all_errors, Since, Grows, send_all_errors-Grows, Returns,
}
use garnd.Protocols.{Garnshared}
use garnd.Requests.Kept.{Keeps}
use garnd.Shm.Invariant.{IsValid}
use garnd.EnvironmentThread.{
  Handles, EnvThread, Round, Flow, proceed, leave, event_loop, report_error_and_close,
}
use garnd.EnvironmentThread.Announced.{Told, Told-Since, Parting, event_loop-Parting, announce_lem}
use garnd.EnvironmentThread.Lifetime.{event_loop-Keeps}

-- It waits, or it has left and the owner has been told.
abbrev pub Ended : Handles → Flow → Log → Type 0
Ended h flow u = (flow ≡ proceed) ⊎ ((flow ≡ leave) × Told h u)

Parting-Ended :
    (h : Handles) (P : EnvThread → Type 0) (x : Outcome ⊥ Flow × EnvThread × Log)
    → Ensures (λ _ e _. P e) (λ _ _ _. ⊥) x
    → Parting h x
    → Ensures (λ flow e u. P e × Ended h flow u) (λ _ _ _. ⊥) x
Parting-Ended h P (ok proceed, e, t) p told = (p, inl refl)
Parting-Ended h P (ok leave, e, t) p told = (p, inr (refl, told))
Parting-Ended h P (err b, e, t) p told = absurd p
Parting-Ended h P (panic, e, t) p told = absurd p

-- The event loop keeps the mutexes, and ends in such a way.
pub event_loop-Ended :
    ⦃k : Kernel⦄ ⦃g : Garnshared⦄ {text : String}
    → ErrorsOpen k
    → 0 < g.pthread_mutex.align
    → g.environment.serialize g.environment.malformed_request ≡ done text
    → (h : Handles) (rs : List Round) (e : EnvThread) (t : Log) → IsValid e.shm
    → e.owner_alive ≡ true
    → Ensures (λ flow e' u. Keeps e.shm e'.shm × Ended h flow u) (λ _ _ _. ⊥) (event_loop h rs e t)
event_loop-Ended errors align answer h rs e t valid owner =
    Parting-Ended h (λ e'. Keeps e.shm e'.shm) (event_loop h rs e t)
      (event_loop-Keeps errors align answer h rs e t valid owner) (event_loop-Parting h rs e t)

-- Code that returns to leave has told the owner.
abbrev pub Leaves : Handles → {S A : Type 0} → Outcome ⊥ A × S × Log → Type 0
Leaves h x = Ensures (λ _ _ u. Told h u) (λ _ _ _. ⊥) x

abbrev pub Ends : Handles → {S : Type 0} → Outcome ⊥ Flow × S × Log → Type 0
Ends h x = Ensures (λ flow _ u. Ended h flow u) (λ _ _ _. ⊥) x

module _ ⦃k : Kernel⦄ (h : Handles) {S : Type 0} where
  pub leave-Ends :
      {A : Type 0} (x : Outcome ⊥ A × S × Log) → Leaves h x → Ends h (resume x (λ _. pure leave))
  leave-Ends x told =
      resume-Ensures (λ _ _ u. Told h u) (λ _ _ _. ⊥) _ _ x _ told (λ _ _ _ t. inr (refl, t))
        (λ _ _ _ e. e)

  -- What has been said stays said.
  pub Told-Leaves :
      {A : Type 0} (m : Io S ⊥ A) (s : S) (t : Log)
      → Told h t
      → Grows m
      → Returns (m s t)
      → Leaves h (m s t)
  Told-Leaves {A = A} m s t told grows returns = still (m s t) (grows.since s t) returns
    where
      still : (x : Outcome ⊥ A × S × Log) → Since t x.2 → Returns x → Leaves h x
      still (ok a, s', u) since r = Told-Since h t u told since
      still (err e, s', u) since r = absurd r
      still (panic, s', u) since r = absurd r

  pub report_lem :
      (errors : ErrorsOpen k) (b : DetailedError) (s : S) (t : Log)
      → Ensures {E = ⊥}
          (λ _ s' u. (s' ≡ s) × Told h u)
          (λ _ _ _. ⊥)
          (report_error_and_close b h s t)
  unfolding report_error_and_close
  report_lem errors b s t = rw (errors t b).1 (
      resume-Ensures (λ _ s' u. (s' ≡ s) × Told h u) (λ _ _ _. ⊥) _ _ _ _ (announce_lem h ⊥ s _)
        (λ es s' u (same, told). rw same (
          said (send_all_errors es s u) (send_all_errors-Open errors ⊥ es s u) told
            ((send_all_errors-Grows es).since s u)))
        (λ _ _ _ x. x))
    where
      said :
          (x : Outcome ⊥ (Unit {0}) × S × Log) {u : Log}
          → Ensures (λ _ s' _. s' ≡ s) (λ _ _ _. ⊥) x
          → Told h u
          → Since u x.2
          → Ensures (λ _ s' v. (s' ≡ s) × Told h v) (λ _ _ _. ⊥) x
      said (ok _, s', v) same told since = (same, Told-Since h _ v told since)
      said (err e, s', v) same told since = absurd same
      said (panic, s', v) same told since = absurd same

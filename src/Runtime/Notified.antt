-- ===== src/Runtime/Notified.antt =====
-- A message to systemd is one call, and changes nothing of main's.
use garnd.Environment.Threads.{join_lem}
use garnd.Prelude.{ℕ, Bool, String, ◌≡◌, refl, ◌∷◌, inl, inr}
use garnd.Errors.{DetailedError, system}
use garnd.Io.{Call, done, failed, Log, Kernel, Ensures, Reply-cases}
use garnd.Runtime.{
  Runtime, Uninit, Listening, drop_runtime, notify, notify_system_starting, notify_system_listening,
  notify_system_reloading, notify_system_stopping,
}

abbrev pub Sent : {S : Type 0} → String → S → Log → S → Log → Type 0
Sent status s t s' u = (s' ≡ s) × (n : ℕ) × (u ≡ (Call.notify status, done n) ∷ t)

abbrev pub Unsent : {S : Type 0} → String → S → Log → DetailedError → S → Log → Type 0
Unsent status s t e s' u =
    (s' ≡ s) × (n : ℕ) × (e ≡ system n) × (u ≡ (Call.notify status, failed n) ∷ t)

module _ ⦃k : Kernel⦄ {S : Type 0} (s : S) (t : Log) where
  notify_lem :
      (status : String)
      → Ensures
          (λ _ s' u. Sent status s t s' u)
          (λ e s' u. Unsent status s t e s' u)
          (notify status s t)
  unfolding notify
  notify_lem status = elim (Reply-cases (k.answer t (Call.notify status))) [
    | inl (n, e) ↦ rw e (refl, n, refl)
    | inr (n, e) ↦ rw e (refl, n, refl, refl)
  ]

  pub notify_starting_lem :
      (r : Runtime Uninit)
      → Ensures
          (λ _ s' u. Sent "Starting service..." s t s' u)
          (λ e s' u. Unsent "Starting service..." s t e s' u)
          (notify_system_starting r s t)
  unfolding notify_system_starting
  notify_starting_lem r = notify_lem "Starting service..."

  pub notify_listening_lem :
      (r : Runtime Listening)
      → Ensures
          (λ _ s' u. Sent "Listening..." s t s' u)
          (λ e s' u. Unsent "Listening..." s t e s' u)
          (notify_system_listening r s t)
  unfolding notify_system_listening
  notify_listening_lem r = notify_lem "Listening..."

  pub notify_reloading_lem :
      (r : Runtime Listening)
      → Ensures
          (λ _ s' u. Sent "Reloading service..." s t s' u)
          (λ e s' u. Unsent "Reloading service..." s t e s' u)
          (notify_system_reloading r s t)
  unfolding notify_system_reloading
  notify_reloading_lem r = notify_lem "Reloading service..."

  pub notify_stopping_lem :
      (r : Runtime Listening)
      → Ensures
          (λ _ s' u. Sent "Stopping service..." s t s' u)
          (λ e s' u. Unsent "Stopping service..." s t e s' u)
          (notify_system_stopping r s t)
  unfolding notify_system_stopping
  notify_stopping_lem r = notify_lem "Stopping service..."

  pub drop_runtime_lem :
      (E : Type 0) (b : Bool) (n : ℕ) (r : Runtime Listening)
      → k.answer t (Call.join_thread r.state_data.welcome_thread) ≡ done n
      → Ensures {E = E}
          (λ _ s' u.
            (s' ≡ s) × (m : ℕ) × (u ≡ (Call.join_thread r.state_data.welcome_thread, done m) ∷ t))
          (λ _ _ _. ⊥)
          (drop_runtime b r s t)
  unfolding drop_runtime
  drop_runtime_lem E b n r e = join_lem S E b r.state_data.welcome_thread n s t e

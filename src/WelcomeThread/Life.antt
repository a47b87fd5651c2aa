-- ===== src/WelcomeThread/Life.antt =====
-- src/linux/welcome_thread.rs: `welcome_thread_main` around its loop, from the moment that the thread
-- owns the welcome socket to the drop of its locals.
pub mod Joined
use garnd.Prelude.{ℕ, Bool, true, false, Option, none, some, List, [], ◌∷◌, Dict, inl, inr}
use garnd.Errors.{DetailedError}
use garnd.Io.{
  Call, Kernel, Io, ok, err, panic, pure, get, put, or_else, call, ignore, finally, within, ◌>>=◌,
  ◌>>◌,
}
use garnd.Protocols.{Garnshared}
use garnd.Environment.{Environment, drop_environment}
use garnd.WelcomeThread.{
  WelcomeThread, Round, Sources, Flow, proceed, leave, Welcome, give_up, event_loop,
}

module _ ⦃k : Kernel⦄ where
  -- The map's destructor. A panic of an element's destructor leaves the rest as they are.
  drop_environments : {E : Type 0} → Bool → Dict Environment → Io WelcomeThread E (Unit {0})
  drop_environments unwinding [] = pure tt
  drop_environments unwinding ((_, env) ∷ envs) = do
    drop_environment unwinding env
    drop_environments unwinding envs

  -- The channel and the map, then the argument `welcome_socket`. The close event is shared with the
  -- environments' threads and closes with its last holder.
  drop_locals : {E : Type 0} → Bool → (welcome_socket : ℕ) → Io WelcomeThread E (Unit {0})
  drop_locals unwinding welcome_socket = do
    w ← get
    put (record { environments = []; close_env_rx = [] })
    finally (drop_environments unwinding w.environments) (ignore (Call.close welcome_socket))

  -- A body that is left, by a return or a panic, drops the locals; one that waits keeps them.
  scoped : ℕ → Welcome Flow → Welcome Flow
  scoped welcome_socket m s t =
      let (o, s', t') = m s t in
      elim o [
        | ok proceed ↦ (ok proceed, s', t')
        | ok leave ↦ (drop_locals false welcome_socket >> pure leave) s' t'
        | err e ↦ absurd e
        | panic ↦ let (_, s₂, t₂) = drop_locals {E = ⊥} true welcome_socket s' t' in (panic, s₂, t₂)
      ]

  module _ ⦃g : Garnshared⦄ where
    with_close_event : Sources → List Round → Welcome Flow
    with_close_event src rs = do
      failed ← or_else (call (Call.listen src.welcome_socket) >> pure none) (λ e. pure (some e))
      elim failed [
        | none ↦ scoped src.welcome_socket (event_loop src rs)
        | some e ↦
            finally (finally (give_up e) (ignore (Call.close src.close_env_event)))
              (ignore (Call.close src.welcome_socket))
      ]

    pub welcome_thread_main :
        {S : Type 0} → (welcome_socket shutdown_event reload_event : ℕ) → List Round → Io S ⊥ Flow
    welcome_thread_main welcome_socket shutdown_event reload_event rs = do
      made ← or_else (call Call.eventfd_new >>= λ fd. pure (inl fd)) (λ e. pure (inr e))
      elim made [
        | inl fd ↦
            within (record { environments = []; close_env_rx = [] })
              (with_close_event
                (record {
                  shutdown_event = shutdown_event;
                  reload_event = reload_event;
                  close_env_event = fd;
                  welcome_socket = welcome_socket;
                })
                rs)
        | inr e ↦ finally (give_up e) (ignore (Call.close welcome_socket))
      ]

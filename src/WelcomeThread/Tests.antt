-- ===== src/WelcomeThread/Tests.antt =====
-- The welcome thread with one environment, and its socket broken for two rounds.
use garnd.WelcomeThread.Threads.Parted.{Acknowledged, Drops, Parted, environment_shutdown-Parted}
use garnd.Prelude.{◌⊎◌, ◌≡◌, refl, false, true, some, [], ◌∷◌}
use garnd.Io.{Ensures, Log}
use garnd.Io.Samples.{working}
use garnd.Protocols.Samples.{garnshared}
use garnd.Environment.Handover.{Ends}
use garnd.WelcomeThread.{WelcomeThread, Round, Sources, any, event_loop, environment_shutdown}
use garnd.WelcomeThread.Broken.{IsBroken, Polls, GoesOn, event_loop-IsBroken}

abbrev one_environment : WelcomeThread
one_environment = record {
  environments = ("a", record { add_listener_event = 6; drop_event = 7; thread = 8 }) ∷ [];
  close_env_rx = [];
}

abbrev sources : Sources
sources = record {
  shutdown_event = 10;
  reload_event = 11;
  close_env_event = 12;
  welcome_socket = 13;
}

abbrev broken : Round
broken = record {
  closing = [];
  shutdown = some (record { input = false; other = false });
  reload = some (record { input = false; other = false });
  close_env = some (record { input = false; other = false });
  welcome = some (record { input = false; other = true });
}

broken-IsBroken : IsBroken broken
unfolding any
broken-IsBroken = record { shutdown = refl; reload = refl; close_env = refl; welcome = refl }

working-Polls : Polls working
working-Polls = record { poll = λ t. (_, refl); errors = λ t e. (_, refl) }

working-Ends : Ends working
working-Ends = record { write = λ t fd. (_, refl); join = λ t thread. (_, refl) }

event_loop-IsBroken_example :
    Ensures
      (GoesOn 2 one_environment [])
      (λ _ _ _. ⊥)
      (event_loop sources (broken ∷ broken ∷ []) one_environment [])
event_loop-IsBroken_example =
    event_loop-IsBroken working-Polls sources (broken ∷ broken ∷ []) one_environment []
      (broken-IsBroken, (broken-IsBroken, tt))

-- Nothing happens, then main is asked to shut down.
abbrev silent : Round
silent = record {
  closing = [];
  shutdown = some (record { input = false; other = false });
  reload = some (record { input = false; other = false });
  close_env = some (record { input = false; other = false });
  welcome = some (record { input = false; other = false });
}

abbrev asked : Round
asked = record silent { shutdown = some (record { input = true; other = false }) }

abbrev announced : WelcomeThread
announced = record one_environment { close_env_rx = "b" ∷ "a" ∷ [] }

environment_shutdown-Parted_example :
    Ensures {E = ⊥}
      (λ _ w' u.
        ((true ≡ true)
          × Parted ("b" ∷ "a" ∷ []) announced w'
          × (w'.close_env_rx ≡ [])
          × (v : Log) × Acknowledged sources.close_env_event [] v
          × Drops ("b" ∷ "a" ∷ []) announced.environments v u)
        ⊎ ((true ≡ false) × (w' ≡ announced) × (u ≡ [])))
      (λ _ _ _. ⊥)
      (environment_shutdown sources (some (record { input = true; other = false })) announced [])
unfolding any
environment_shutdown-Parted_example =
    environment_shutdown-Parted working-Ends (λ t e. (_, refl)) sources
      (some (record { input = true; other = false })) announced []

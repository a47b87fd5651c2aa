-- ===== src/Main/Tests.antt =====
-- A daemon that is asked to reload, twice in an epoch that has seen 98 reloads, and then to shut down.
use garnd.Prelude.{ℕ, ◌≡◌, ◌≢◌, true, refl, some, none, [], ◌∷◌, List, All, map, false, arith}
use garnd.Errors.{DetailedError, shutdown_signal, reload_request, user_nonexistent, runtime}
use garnd.Io.{done, Ensures, ErrorsOpen}
use garnd.Io.Samples.{working}
use garnd.CircuitBreaker.Rate.{counted, reading, epoch, Within4, All-counted, All-within}
use garnd.Privileges.Samples.{unprivileged}
use garnd.Runtime.{Runtime, Listening}
use garnd.EnvVars.{not_present}
use garnd.Main.{Globals, Life, restarts, Next, receive, start_up, turn, main}
use garnd.Main.Signalled.{Serves, first_signal, taken, decide, LoggedBy, receive-Decides}
use garnd.Main.StartUp.{Begun, Ceased, start_up-Begun}
use garnd.Environment.Handover.{Ends}
use garnd.Protocols.Samples.{garnshared}
use garnd.WelcomeThread.{Round, leave, any}
use garnd.WelcomeThread.Life.{welcome_thread_main}
use garnd.Main.Awaited.{sent_errors, turn-welcome_thread_main}
use garnd.Main.Course.Limited.{main-InEpoch}

abbrev life : (seconds : ℕ) → DetailedError → Life
life seconds signal = record {
  debug_assertions = false;
  default_working_dir = "/run/garn";
  working_dir_var = not_present;
  credentials = unprivileged;
  address = done 0;
  received = runtime user_nonexistent ∷ signal ∷ [];
  late = runtime user_nonexistent ∷ [];
  clock = some (reading (seconds, 0));
}

abbrev globals : Globals
globals = record {
  events = record { shutdown_event_for_signal = none; reload_event_for_signal = none };
  breaker = counted (epoch 100 500_000_000) 98;
}

abbrev listening : Runtime Listening
listening = record { working_dir_path = "/run/garn"; state_data = record { welcome_thread = 5 } }

working-Serves : Serves working
working-Serves = record {
  log = λ t e. (_, refl);
  early = λ t message. (_, refl);
  join = λ t thread. (_, refl);
}

working-ErrorsOpen : ErrorsOpen working
working-ErrorsOpen t e = (_, refl)

receive-Decides_example :
    Ensures
      (λ got g' u.
        ((got, g') ≡ decide globals none (first_signal (reload_request ∷ [])))
        × LoggedBy got (taken (reload_request ∷ [])) [] u)
      (λ _ _ _. ⊥)
      (receive listening none (reload_request ∷ []) globals [])
receive-Decides_example =
    receive-Decides working-Serves listening none (reload_request ∷ []) globals []

start_up-Begun_example :
    Ensures
      (λ r g' u. Begun 4 globals [] r g' u)
      (λ _ g' u. Ceased 4 globals [] g' u)
      (start_up (life 101 reload_request) none globals [])
start_up-Begun_example =
    start_up-Begun working-ErrorsOpen 4 (life 101 reload_request) none globals []

abbrev readings : List (ℕ × ℕ)
readings = (101, 0) ∷ (102, 0) ∷ []

readings-Within4 : All (Within4 100 500_000_000) readings
readings-Within4 = (
  record { range = omega arith; nano = omega arith; later = omega arith; soon = omega arith },
  (record { range = omega arith; nano = omega arith; later = omega arith; soon = omega arith }, tt),
)

main-InEpoch_example :
    Ensures
      (λ next _ _. ¬ (next ≡ restarts))
      (λ _ _ _. ⊥)
      (main (life 101 reload_request ∷ life 102 reload_request ∷ []) globals [])
main-InEpoch_example =
    main-InEpoch working-Serves working-ErrorsOpen
      (life 101 reload_request ∷ life 102 reload_request ∷ []) (map reading readings) globals []
      refl
      (All-counted (epoch 100 500_000_000) 98 (map reading readings)
        (All-within 100 500_000_000 readings (omega arith) readings-Within4))
      (omega arith) (omega arith)

-- The shutdown event is raised, and main receives what the welcome thread has sent.
abbrev raised : Round
raised = record {
  closing = [];
  shutdown = some (record { input = true; other = false });
  reload = none;
  close_env = none;
  welcome = none;
}

working-Ends : Ends working
working-Ends = record { write = λ t fd. (_, refl); join = λ t thread. (_, refl) }

abbrev awaited : Life
awaited =
    let (_, _, u) = welcome_thread_main {S = ℕ} 13 10 11 (raised ∷ []) 0 [] in
    record (life 101 shutdown_signal) { received = sent_errors u }

turn-welcome_thread_main_example :
    Ensures {S = ℕ}
      (λ flow _ _. flow ≡ leave)
      (λ _ _ _. ⊥)
      (welcome_thread_main 13 10 11 (raised ∷ []) 0 [])
    × Ensures (λ next _ _. next ≢ Next.waiting) (λ _ _ _. ⊥) (turn awaited globals [])
unfolding any
turn-welcome_thread_main_example =
    turn-welcome_thread_main working-Ends working-ErrorsOpen working-Serves 13 10 11 (raised ∷ []) 0
      awaited globals [] [] (λ (calm, _). cc calm.0) refl

-- ===== src/Signals/Tests.antt =====
-- A reload that finds the events of the first start.
use garnd.Prelude.{some, [], ◌∷◌, inr, refl}
use garnd.Io.{Call, done, Ensures}
use garnd.Io.Samples.{working}
use garnd.Signals.Interrupt.{Libc, termination_or_reload_handler}
use garnd.Signals.Interrupt.Undisturbed.{Undisturbed, termination_or_reload_handler-Undisturbed}
use garnd.Prelude.{true, none}
use garnd.Signals.{Statics, setup_events, sighup}
use garnd.Signals.Delivered.{SetUp, Delivers, Stays, setup_events-Delivers}

abbrev started : Statics
started = record { shutdown_event_for_signal = some 31; reload_event_for_signal = some 32 }

setup_events-Delivers_example :
    Ensures
      (λ events st' u.
        SetUp started events st' [] u
        × Delivers sighup events st' ((Call.eventfd_read 32, done 8) ∷ u))
      (λ _ st' _. Stays started st')
      (setup_events started [])
setup_events-Delivers_example =
    setup_events-Delivers started [] sighup ((Call.eventfd_read 32, done 8) ∷ []) (inr (inr refl))
      (refl, tt)

-- A `write` that fails for want of room in the pipe.
abbrev full_pipe : Libc
full_pipe = record { errno_after_write = λ before fd bs errno. 11 }

termination_or_reload_handler-Undisturbed_example :
    Undisturbed true none
      (record { errno = 4; handed = [] })
      (termination_or_reload_handler ⦃c = full_pipe⦄ true
        (record { shutdown_event_for_signal = some 5; reload_event_for_signal = none })
        (record { errno = 4; handed = [] }))
termination_or_reload_handler-Undisturbed_example =
    termination_or_reload_handler-Undisturbed ⦃c = full_pipe⦄ true
      (record { shutdown_event_for_signal = some 5; reload_event_for_signal = none })
      (record { errno = 4; handed = [] })

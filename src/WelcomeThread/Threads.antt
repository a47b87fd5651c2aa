-- ===== src/WelcomeThread/Threads.antt =====
-- No thread is lost: each environment's thread that was started is in the map or has been joined.
pub mod Closing
pub mod Parted
pub mod Opening
pub mod Receiving
pub mod Loop
use garnd.Prelude.{
  ℕ, ◌+◌, ◌≡◌, refl, ap, inl, inr, Option-cases, Bool-cases, Bool, true, false, Option, none, some,
  List, [], ◌∷◌, ◌++◌, length, String, arith, ◌==◌, Dict, lookup, insert, remove, Distinct,
  Distinct-remove, length-remove_found, lookup-remove_self, remove_missing,
}
use garnd.Errors.{DetailedError, system}
use garnd.Io.{
  Call, done, failed, Log, Kernel, Ensures, Ensures-mono, Io, Outcome, ok, err, panic, call,
  or_else, pure, ignore, fail, ◌>>◌, Reply-cases, ErrorsOpen, send_error-Open, send_all_errors-Open,
  send_error, send_all_errors, Holds, Holds-resume, Holds-recover, resume-Ensures, recover-Ensures,
}
use garnd.Protocols.{Garnshared}
use garnd.Protocols.Tally.{unwrap_or_report_failure_tally, parse_request_tally}
use garnd.Environment
use garnd.Environment.{Environment, insert_socket, drop_environment}
use garnd.Environment.Handover.{Ends}
use garnd.Environment.Threads.{
  spawned, joined, tally, insert_socket-tally, new-tally, drop_environment-tally,
}
use garnd.WelcomeThread.{
  WelcomeThread, Round, Sources, Flow, PollFlags, proceed, leave, any, close_environment,
  close_environments, acknowledge, environment_shutdown, or_report, checked_request,
  receive_and_parse_request, vacant, entry, open_for, handle_open_environment, handle_request,
  serve, welcome_event, polled, signal, give_up, round, event_loop,
}

-- Since the log was `t₀`, the threads started are those joined and those of the map.
pub record Accounted (t₀ : Log) (w : WelcomeThread) (t : Log) : Type 0 where
  pub distinct : Distinct w.environments
  pub count : spawned t + joined t₀ ≡ joined t + spawned t₀ + length w.environments

abbrev pub Unmoved : {A : Type 0} → WelcomeThread → Log → A → WelcomeThread → Log → Type 0
Unmoved w t _ w' u = (w' ≡ w) × (tally u ≡ tally t)

pub Accounted-tally :
    (t₀ t u : Log) (w : WelcomeThread) → tally u ≡ tally t → Accounted t₀ w t → Accounted t₀ w u
Accounted-tally t₀ t u w e a = record {
  distinct = a.distinct;
  count = omega (arith, a.count, ap (λ x. x.0) e, ap (λ x. x.1) e);
}

module _ (t₀ : Log) where
  pub Unmoved-Accounted :
      {E A : Type 0} (x : Outcome E A × WelcomeThread × Log) (w : WelcomeThread) (t : Log)
      → Accounted t₀ w t
      → Ensures (Unmoved w t) (Unmoved w t) x
      → Holds (Accounted t₀) x
  Unmoved-Accounted x w t a h =
      Ensures-mono (Unmoved w t) (Unmoved w t) _ _ x h
        (λ _ w' u (e, n). rw e (Accounted-tally t₀ t u w n a))
        (λ _ w' u (e, n). rw e (Accounted-tally t₀ t u w n a))

module _ ⦃k : Kernel⦄ (open_errors : ErrorsOpen k) (t₀ : Log) where
  pub send_error-Accounted :
      (e : DetailedError) (w : WelcomeThread) (t : Log)
      → Accounted t₀ w t
      → Holds {E = ⊥} (Accounted t₀) (send_error e w t)
  unfolding send_error
  send_error-Accounted e w t a =
      rw (open_errors t e).1 (record { distinct = a.distinct; count = a.count })

  pub send_all-Accounted :
      (es : List DetailedError) (w : WelcomeThread) (t : Log)
      → Accounted t₀ w t
      → Holds {E = ⊥} (Accounted t₀) (send_all_errors es w t)
  unfolding send_all_errors
  send_all-Accounted [] w t a = a
  send_all-Accounted (e ∷ es) w t a =
      rw (open_errors t e).1
        (send_all-Accounted es w _ (record { distinct = a.distinct; count = a.count }))

-- ===== src/WelcomeThread/Joining.antt =====
-- src/linux/welcome_thread.rs, the first half of `handle_open_environment`: the environment of a name
-- is found or started, and its thread takes over the client's socket.
use garnd.Prelude.{
  ℕ, ◌+◌, ◌≡◌, refl, ◌∙◌, ◌≢◌, false, Option, none, some, List, String, arith, lookup, insert,
  lookup-insert_self, lookup-insert_ne,
}
use garnd.Errors.{DetailedError}
use garnd.Io.{Log, Kernel, answered, Ensures, Ensures-mono, resume-Ensures, recover-Ensures}
use garnd.Protocols.{Garnshared}
use garnd.Protocols.Answers.{unwrap_or_report_failure_answers}
use garnd.Environment
use garnd.Environment.{Environment, insert_socket, drop_environment}
use garnd.Environment.Handover.{
  Ends, Taken, insert_socket-Taken, insert_socket-Silent, new_keeps, new-Silent,
  drop_environment_keeps,
}
use garnd.WelcomeThread.{WelcomeThread, or_report, vacant, entry}

-- No environment that is registered goes away or is replaced, and none comes but under the name.
pub record Registers (name : String) (w w' : WelcomeThread) : Type 0 where
  pub kept :
      (env : Environment)
      → lookup name w.environments ≡ some env
      → lookup name w'.environments ≡ some env
  pub others : (j : String) → name ≢ j → lookup j w'.environments ≡ lookup j w.environments

-- The environment is registered, and its thread has taken over the socket.
abbrev pub Joined : String → ℕ → WelcomeThread → Log → Type 0
Joined name passed w u =
    (env : Environment) × (lookup name w.environments ≡ some env) × (t : Log) × Taken env passed t u

-- What the first half leaves: `n` messages more to the client.
abbrev pub Went : String → ℕ → ℕ → WelcomeThread → Log → WelcomeThread → Log → Type 0
Went name client n w t w' u = Registers name w w' × (answered client u ≡ answered client t + n)

pub Registers-refl : (name : String) (w : WelcomeThread) → Registers name w w
Registers-refl name w = record { kept = λ env h. h; others = λ j ne. refl }

-- Nothing has changed but that the client has got a message.
abbrev pub Refused : {E : Type 0} → ℕ → WelcomeThread → Log → E → WelcomeThread → Log → Type 0
Refused client w t _ w' u = (w' ≡ w) × (answered client u ≡ answered client t + 1)

module _ ⦃k : Kernel⦄ ⦃g : Garnshared⦄ (client : ℕ) where
  insert_lem :
      (name : String) (env : Environment) (passed : ℕ) (w : WelcomeThread) (t : Log)
      → Ensures
          (λ _ w' u. ((w' ≡ w) × Taken env passed t u) × (answered client u ≡ answered client t))
          (Refused client w t)
          (or_report (insert_socket env passed) client w t)
  unfolding or_report
  insert_lem name env passed w t =
      unwrap_or_report_failure_answers g.welcome client _ (λ w'. w' ≡ w) (insert_socket env passed)
        w t (insert_socket-Taken client env passed w t) (insert_socket-Silent client env passed w t)

  new_lem :
      (name : String) (w : WelcomeThread) (t : Log)
      → Ensures
          (λ _ w' u. (w' ≡ w) × (answered client u ≡ answered client t))
          (Refused client w t)
          (or_report (Environment.new name) client w t)
  unfolding or_report
  new_lem name w t =
      unwrap_or_report_failure_answers g.welcome client (λ _ w' _. w' ≡ w) (λ w'. w' ≡ w)
        (Environment.new name) w t (new_keeps client name w t) (new-Silent client name w t)

  registered :
      (name : String) (env : Environment) (w : WelcomeThread)
      → lookup name w.environments ≡ none
      → Registers name w (record w { environments = insert name env w.environments })
  registered name env w free = record {
    kept = λ e h. cc;
    others = λ j ne. lookup-insert_ne name j env w.environments ne;
  }

  vacant_lem :
      (ends : Ends k) (name : String) (passed : ℕ) (w : WelcomeThread) (t : Log)
      → lookup name w.environments ≡ none
      → Ensures
          (λ _ w' u. Went name client 0 w t w' u × Joined name passed w' u)
          (Refused client w t)
          (vacant name client passed w t)
  unfolding vacant
  vacant_lem ends name passed w t free =
      resume-Ensures started (Refused client w t) _ _ _ _
        (recover-Ensures started (Refused client w t) _ _
          (or_report (Environment.new name) client w t) _ (new_lem name w t) (λ _ _ _ h. h)
          (λ _ w' u (e, n). (e, omega (arith, n))))
        (λ env w' u (e, n). rw e (
          resume-Ensures (inserted env u) (Refused client w t) _ _ _ _
            (recover-Ensures (inserted env u)
              (λ _ w' u'. (w' ≡ w) × (answered client u' ≡ answered client u + 1)) _ _
              (or_report (insert_socket env passed) client w u) _ (insert_lem name env passed w u)
              (λ _ _ _ h. h)
              (λ es w' u' (e', n').
                resume-Ensures
                  (λ _ w'' u''. (w'' ≡ w') × (answered client u'' ≡ answered client u'))
                  (λ _ _ _. ⊥) _ _ (drop_environment false env w' u') _
                  (drop_environment_keeps client (List DetailedError) ends false env w' u')
                  (λ _ w'' u'' (e'', n''). (e'' ∙ e', omega (arith, n, n', n'')))
                  (λ _ _ _ x. absurd x)))
            (λ _ w' u' ((e', taken), n'). rw e' (
              (registered name env w free, omega (arith, n, n')),
              (env, lookup-insert_self name env w.environments, u, taken),
            ))
            (λ _ _ _ h. h)))
        (λ _ _ _ h. h)
    where
      started : Environment → WelcomeThread → Log → Type 0
      started env w' u = (w' ≡ w) × (answered client u ≡ answered client t)

      inserted : Environment → Log → Unit {0} → WelcomeThread → Log → Type 0
      inserted env u _ w' u' =
          ((w' ≡ w) × Taken env passed u u') × (answered client u' ≡ answered client u)

  pub entry_lem :
      (ends : Ends k) (name : String) (passed : ℕ) (o : Option Environment) (w : WelcomeThread)
      (t : Log)
      → lookup name w.environments ≡ o
      → Ensures
          (λ _ w' u. Went name client 0 w t w' u × Joined name passed w' u)
          (Refused client w t)
          (entry name client passed o w t)
  unfolding entry
  entry_lem ends name passed none w t h = vacant_lem ends name passed w t h
  entry_lem ends name passed (some env) w t h =
      Ensures-mono
        (λ _ w' u. ((w' ≡ w) × Taken env passed t u) × (answered client u ≡ answered client t))
        (Refused client w t) _ _ (or_report (insert_socket env passed) client w t)
        (insert_lem name env passed w t)
        (λ _ w' u ((e, taken), n).
          rw e ((Registers-refl name w, omega (arith, n)), (env, h, t, taken)))
        (λ _ _ _ h. h)

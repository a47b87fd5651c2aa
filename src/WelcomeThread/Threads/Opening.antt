-- ===== src/WelcomeThread/Threads/Opening.antt =====
-- Environments that are opened.
use garnd.Prelude.{
  ℕ, ◌+◌, ◌≡◌, refl, ◌∙◌, ap, false, Option, none, some, List, [], ◌∷◌, String, arith, lookup,
  insert, Distinct-insert, length-insert_new,
}
use garnd.Errors.{DetailedError}
use garnd.Io.{
  Call, Reply, convert, Log, Kernel, Ensures, Io, Outcome, ok, err, panic, call, or_else, pure,
  fail, ◌>>◌, Holds, Holds-resume, resume-Ensures, recover-Ensures,
}
use garnd.Protocols.{Garnshared, open_environment_ok}
use garnd.Protocols.Tally.{unwrap_or_report_failure_tally}
use garnd.Environment
use garnd.Environment.{Environment, insert_socket, drop_environment}
use garnd.Environment.Handover.{Ends}
use garnd.Environment.Threads.{
  spawned, joined, tally, insert_socket-tally, new-tally, drop_environment-tally,
}
use garnd.WelcomeThread.{WelcomeThread, or_report, vacant, entry, open_for, handle_open_environment}
use garnd.WelcomeThread.Threads.{Accounted, Unmoved, Accounted-tally, Unmoved-Accounted}

module _ ⦃k : Kernel⦄ ⦃g : Garnshared⦄ (ends : Ends k) (t₀ : Log) where
  or_report-Accounted :
      {A : Type 0} (m : Io WelcomeThread DetailedError A) (client : ℕ) (w : WelcomeThread) (t : Log)
      (R : A → WelcomeThread → Log → Type 0)
      → Ensures R (Unmoved w t) (m w t)
      → Ensures R (Unmoved w t) (or_report m client w t)
  unfolding or_report
  or_report-Accounted m client w t R h =
      unwrap_or_report_failure_tally g.welcome tally (λ fd text r u. refl) m client R
        (λ w' u. (w' ≡ w) × (tally u ≡ tally t)) w t (λ s x y e (e', n). (e', e ∙ n)) h

  -- The environment is registered if its thread has taken the socket, and joined if it has not.
  vacant-Accounted :
      (name : String) (client passed : ℕ) (w : WelcomeThread) (t : Log)
      → lookup name w.environments ≡ none
      → Accounted t₀ w t
      → Holds (Accounted t₀) (vacant name client passed w t)
  unfolding vacant
  vacant-Accounted name client passed w t free a =
      resume-Ensures started (λ _ w' u. Accounted t₀ w' u) _ _ _ _
        (recover-Ensures started (Unmoved w t) _ _ (or_report (Environment.new name) client w t) _
          (or_report-Accounted (Environment.new name) client w t started (new-tally name w t))
          (λ _ _ _ x. x) (λ _ w' u (e, n). rw e (Accounted-tally t₀ t _ w n a)))
        (λ env w' u (e, n). rw e (
          resume-Ensures (Unmoved w u) (λ _ w'' v. Accounted t₀ w'' v) _ _ _ _
            (recover-Ensures (Unmoved w u) (Unmoved w u) _ _
              (or_report (insert_socket env passed) client w u) _
              (or_report-Accounted (insert_socket env passed) client w u (Unmoved w u)
                (insert_socket-tally env passed w u))
              (λ _ _ _ x. x)
              (λ es w'' v (e', n').
                resume-Ensures (λ _ s x. (s ≡ w'') × (tally x ≡ (spawned v, joined v + 1)))
                  (λ _ _ _. ⊥) _ _ (drop_environment false env w'' v) _
                  (drop_environment-tally (List DetailedError) ends false env w'' v)
                  (λ _ s x (e'', n''). rw (e'', e') (ended u v x n n' n'')) (λ _ _ _ x. absurd x)))
            (λ _ w'' v (e', n'). rw e' (kept env u v n n')) (λ _ _ _ x. x)))
        (λ _ _ _ x. x)
    where
      started : Environment → WelcomeThread → Log → Type 0
      started env w' u = (w' ≡ w) × (tally u ≡ (spawned t + 1, joined t))

      ended :
          (u v x : Log)
          → tally u ≡ (spawned t + 1, joined t)
          → tally v ≡ tally u
          → tally x ≡ (spawned v, joined v + 1)
          → Accounted t₀ w x
      ended u v x n n' n'' = record {
        distinct = a.distinct;
        count = omega (
          arith,
          a.count,
          ap (λ y. y.0) n,
          ap (λ y. y.1) n,
          ap (λ y. y.0) n',
          ap (λ y. y.1) n',
          ap (λ y. y.0) n'',
          ap (λ y. y.1) n'',
        );
      }

      kept :
          (env : Environment) (u v : Log)
          → tally u ≡ (spawned t + 1, joined t)
          → tally v ≡ tally u
          → Accounted t₀ (record w { environments = insert name env w.environments }) v
      kept env u v n n' = record {
        distinct = Distinct-insert name env w.environments a.distinct;
        count = omega (
          arith,
          a.count,
          ap (λ y. y.0) n,
          ap (λ y. y.1) n,
          ap (λ y. y.0) n',
          ap (λ y. y.1) n',
          length-insert_new name env w.environments free,
        );
      }

  entry-Accounted :
      (name : String) (client passed : ℕ) (o : Option Environment) (w : WelcomeThread) (t : Log)
      → lookup name w.environments ≡ o
      → Accounted t₀ w t
      → Holds (Accounted t₀) (entry name client passed o w t)
  unfolding entry
  entry-Accounted name client passed none w t e a = vacant-Accounted name client passed w t e a
  entry-Accounted name client passed (some env) w t e a =
      Unmoved-Accounted t₀ (or_report (insert_socket env passed) client w t) w t a (
        or_report-Accounted (insert_socket env passed) client w t (Unmoved w t)
          (insert_socket-tally env passed w t))

  open_for-Accounted :
      (name : String) (client : ℕ) (w : WelcomeThread) (t : Log)
      → Accounted t₀ w t
      → Holds (Accounted t₀) (open_for name client w t)
  unfolding open_for
  open_for-Accounted name client w t a =
      Holds-resume (Accounted t₀) (or_report (call (Call.dup client)) client w t) _
        (Unmoved-Accounted t₀ (or_report (call (Call.dup client)) client w t) w t a
          (or_report-Accounted (call (Call.dup client)) client w t (Unmoved w t) (ground arith)))
        (λ passed w' u b.
          Holds-resume (Accounted t₀) (entry name client passed (lookup name w'.environments) w' u)
            _ (entry-Accounted name client passed (lookup name w'.environments) w' u refl b)
            (λ _ w'' v c.
              Holds-resume (Accounted t₀) (or_report (convert response) client w'' v) _
                (Unmoved-Accounted t₀ (or_report (convert response) client w'' v) w'' v c (
                  or_report-Accounted (convert response) client w'' v (Unmoved w'' v)
                    (ground arith)))
                (λ text s x d. confirmed client text s x d)))
    where
      response : Reply String
      response = g.welcome.serialize open_environment_ok

      confirmed :
          (client : ℕ) (text : String) (s : WelcomeThread) (x : Log)
          → Accounted t₀ s x
          → Holds {A = Unit {0}}
              (Accounted t₀)
              ((or_else (call (Call.send client text)) (λ e. fail (e ∷ [])) >> pure tt) s x)
      confirmed client text s x d =
          Unmoved-Accounted t₀
            ((or_else (call (Call.send client text)) (λ e. fail (e ∷ [])) >> pure tt) s x) s x d
            (ground arith)

  pub handle_open_environment-Accounted :
      (name : String) (client : ℕ) (w : WelcomeThread) (t : Log)
      → Accounted t₀ w t
      → Holds (Accounted t₀) (handle_open_environment name client w t)
  unfolding handle_open_environment
  handle_open_environment-Accounted name client w t a =
      closed (open_for name client w t) (open_for-Accounted name client w t a)
    where
      closed :
          (x : Outcome (List DetailedError) (Unit {0}) × WelcomeThread × Log)
          → Holds (Accounted t₀) x
          → Holds
              (Accounted t₀)
              (x.0, x.1, (Call.close client, k.answer x.2 (Call.close client)) ∷ x.2)
      closed (ok _, w', u) b = Accounted-tally t₀ u _ w' refl b
      closed (err _, w', u) b = Accounted-tally t₀ u _ w' refl b
      closed (panic, w', u) b = absurd b

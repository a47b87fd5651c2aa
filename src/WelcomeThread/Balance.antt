-- ===== src/WelcomeThread/Balance.antt =====
-- No descriptor is lost: what the welcome thread accepts, duplicates or creates it closes, moves to an
-- environment's thread, or keeps as the two events of an environment.

pub mod Loop
use garnd.Prelude.{
  one, suc_not_zero, ℕ, zero, suc, ◌+◌, ◌≡◌, refl, ap, inl, inr, false, Option, none, some, List,
  [], ◌∷◌, String, arith, ◌==◌, lookup, insert,
}
use garnd.Errors.{DetailedError}
use garnd.Io.{
  Call, Reply, convert, done, failed, Log, Kernel, Ensures, Ensures-mono, Io, Outcome, ok, err,
  panic, call, or_else, pure, fail, ◌>>◌, Reply-cases, resume-Ensures, recover-Ensures,
}
use garnd.Protocols.{Garnshared, open_environment_ok}
use garnd.Protocols.Tally.{unwrap_or_report_failure_tally, parse_request_tally}
use garnd.Environment
use garnd.Environment.{Environment, insert_socket, drop_environment}
use garnd.Environment.Handover.{Ends}
use garnd.Environment.Descriptors.{
  counts, Balance, Balance-counts, Balance-trans, Balanced, insert_socket-Balance, new-Balance,
  drop_environment-Balance,
}
use garnd.WelcomeThread.{
  WelcomeThread, or_report, checked_request, receive_and_parse_request, vacant, entry, open_for,
  handle_open_environment,
}

module _ ⦃k : Kernel⦄ ⦃g : Garnshared⦄ (d : ℕ) where
  checked_request-Balance :
      (fd : ℕ) (w : WelcomeThread) (t : Log)
      → Ensures
          (Balanced d (one fd d) (one fd d) t)
          (Balanced d (one fd d) (one fd d) t)
          (checked_request fd w t)
  unfolding checked_request
  checked_request-Balance fd w t = elim (Reply-cases (k.answer t (Call.peer_uid fd))) [
    | inl (zero, root) ↦ rw root refl
    | inl (suc uid, user) ↦
        elim (Reply-cases
          (k.answer ((Call.peer_uid fd, done (suc uid)) ∷ t) (Call.recv fd g.welcome.max_size))) [
            | inl (n, got) ↦
                rw (user, suc_not_zero uid, got)
                  (Ensures-mono (λ _ s u. (s ≡ w) × (counts d u ≡ counts d t))
                    (λ _ s u. (s ≡ w) × (counts d u ≡ counts d t))
                    (Balanced d (one fd d) (one fd d) t) (Balanced d (one fd d) (one fd d) t) _
                    (parse_request_tally g.welcome (counts d) (λ fd text r u. refl) fd _ w _)
                    (λ _ s u (_, e). Balance-counts d (one fd d) (one fd d) t t u e refl)
                    (λ _ s u (_, e). Balance-counts d (one fd d) (one fd d) t t u e refl))
            | inr (n, lost) ↦ rw (user, suc_not_zero uid, lost) refl
          ]
    | inr (n, unknown) ↦ rw unknown refl
  ]

  -- The client's socket is in hand after a success, and closed after a failure.
  pub receive-Balance :
      (socket : ℕ) (w : WelcomeThread) (t : Log)
      → Ensures
          (λ r s u. Balance d 0 (one r.0 d) t u)
          (Balanced d 0 0 t)
          (receive_and_parse_request socket w t)
  unfolding receive_and_parse_request
  receive-Balance socket w t = elim (Reply-cases (k.answer t (Call.accept socket))) [
    | inl (fd, accepted) ↦ rw accepted (
        resume-Ensures (λ r s u. Balance d 0 (one fd d) t u) (Balanced d 0 0 t) _ _ _ _
          (recover-Ensures (Balanced d (one fd d) (one fd d) ((Call.accept socket, done fd) ∷ t))
            (Balanced d (one fd d) (one fd d) ((Call.accept socket, done fd) ∷ t))
            (λ r s u. Balance d 0 (one fd d) t u) (Balanced d 0 0 t)
            (checked_request fd w ((Call.accept socket, done fd) ∷ t)) _
            (checked_request-Balance fd w ((Call.accept socket, done fd) ∷ t))
            (λ _ s u h. omega (arith, h)) (λ _ s u h. omega (arith, h)))
          (λ _ _ _ x. x) (λ _ _ _ x. x))
    | inr (n, refused) ↦ rw refused refl
  ]

  or_report-Balance :
      {A : Type 0} (m : Io WelcomeThread DetailedError A) (client : ℕ) (w : WelcomeThread) (t : Log)
      (a : ℕ) (b : A → ℕ) (c : ℕ)
      → Ensures (λ z _ u. Balance d a (b z) t u) (Balanced d a c t) (m w t)
      → Ensures (λ z _ u. Balance d a (b z) t u) (Balanced d a c t) (or_report m client w t)
  unfolding or_report
  or_report-Balance m client w t a b c h =
      unwrap_or_report_failure_tally g.welcome (counts d) (λ fd text r u. refl) m client
        (λ z _ u. Balance d a (b z) t u) (λ _ u. Balance d a c t u) w t
        (λ s x y e h'. Balance-counts d a c t x y e h') h

-- The socket that an environment's thread is to get is in hand before, and not after.
module _ ⦃k : Kernel⦄ ⦃g : Garnshared⦄ (d : ℕ) (ends : Ends k) where
  vacant-Balance :
      (name : String) (client passed : ℕ) (w : WelcomeThread) (t : Log)
      → Ensures
          (Balanced d (one passed d) 0 t)
          (Balanced d (one passed d) 0 t)
          (vacant name client passed w t)
  unfolding vacant
  vacant-Balance name client passed w t =
      resume-Ensures (Balanced d (one passed d) (one passed d) t) (Balanced d (one passed d) 0 t) _
        _ _ _
        (recover-Ensures (Balanced d 0 0 t) (Balanced d 0 0 t)
          (Balanced d (one passed d) (one passed d) t) (Balanced d (one passed d) 0 t)
          (or_report (Environment.new name) client w t) _
          (or_report-Balance d (Environment.new name) client w t 0 (λ _. 0) 0
            (new-Balance d name w t))
          (λ _ s u h. omega (arith, h)) (λ _ s u h. omega (arith, h)))
        (λ env s u h.
          resume-Ensures (Balanced d (one passed d) 0 t) (Balanced d (one passed d) 0 t) _ _ _ _
            (recover-Ensures (Balanced d (one passed d) 0 u) (Balanced d (one passed d) 0 u)
              (Balanced d (one passed d) 0 t) (Balanced d (one passed d) 0 t)
              (or_report (insert_socket env passed) client s u) _
              (or_report-Balance d (insert_socket env passed) client s u (one passed d) (λ _. 0) 0
                (insert_socket-Balance d env passed s u))
              (λ _ _ v h'. Balance-trans d (one passed d) (one passed d) 0 t u v h h')
              (λ es s' v h'.
                resume-Ensures (Balanced d 0 0 v) (λ _ _ _. ⊥) _ _ (drop_environment false env s' v)
                  _ (drop_environment-Balance d (List DetailedError) ends false env s' v)
                  (λ _ _ x h''.
                    Balance-trans d (one passed d) 0 0 t v x
                      (Balance-trans d (one passed d) (one passed d) 0 t u v h h') h'')
                  (λ _ _ _ x. absurd x)))
            (λ _ _ _ x. x) (λ _ _ _ x. x))
        (λ _ _ _ x. x)

  entry-Balance :
      (name : String) (client passed : ℕ) (o : Option Environment) (w : WelcomeThread) (t : Log)
      → Ensures
          (Balanced d (one passed d) 0 t)
          (Balanced d (one passed d) 0 t)
          (entry name client passed o w t)
  unfolding entry
  entry-Balance name client passed none w t = vacant-Balance name client passed w t
  entry-Balance name client passed (some env) w t =
      or_report-Balance d (insert_socket env passed) client w t (one passed d) (λ _. 0) 0
        (insert_socket-Balance d env passed w t)

  open_for-Balance :
      (name : String) (client : ℕ) (w : WelcomeThread) (t : Log)
      → Ensures (Balanced d 0 0 t) (Balanced d 0 0 t) (open_for name client w t)
  unfolding open_for
  open_for-Balance name client w t =
      resume-Ensures (λ passed _ u. Balance d 0 (one passed d) t u) (Balanced d 0 0 t) _ _
        (or_report (call (Call.dup client)) client w t) _
        (or_report-Balance d (call (Call.dup client)) client w t 0 (λ passed. one passed d) 0
          (ground arith))
        (λ passed s u h.
          resume-Ensures (Balanced d (one passed d) 0 u) (Balanced d (one passed d) 0 u) _ _
            (entry name client passed (lookup name s.environments) s u) _
            (entry-Balance name client passed (lookup name s.environments) s u)
            (λ _ s' v h'.
              resume-Ensures (Balanced d 0 0 v) (Balanced d 0 0 v) _ _
                (or_report (convert response) client s' v) _
                (or_report-Balance d (convert response) client s' v 0 (λ _. 0) 0 (ground arith))
                (λ text s'' x h''.
                  confirmed text s'' x (
                    Balance-trans d 0 0 0 t v x (Balance-trans d 0 (one passed d) 0 t u v h h')
                      h''))
                (λ _ _ x h''.
                  Balance-trans d 0 0 0 t v x (Balance-trans d 0 (one passed d) 0 t u v h h') h''))
            (λ _ _ v h'. Balance-trans d 0 (one passed d) 0 t u v h h'))
        (λ _ _ _ x. x)
    where
      response : Reply String
      response = g.welcome.serialize open_environment_ok

      confirmed :
          (text : String) (s : WelcomeThread) (x : Log)
          → Balance d 0 0 t x
          → Ensures {A = Unit {0}}
              (Balanced d 0 0 t)
              (Balanced d 0 0 t)
              ((or_else (call (Call.send client text)) (λ e. fail (e ∷ [])) >> pure tt) s x)
      confirmed text s x h = ground (arith, h)

  -- The client's own socket, which was in hand, is closed however the request ends.
  pub handle_open_environment-Balance :
      (name : String) (client : ℕ) (w : WelcomeThread) (t : Log)
      → Ensures
          (Balanced d (one client d) 0 t)
          (Balanced d (one client d) 0 t)
          (handle_open_environment name client w t)
  unfolding handle_open_environment
  handle_open_environment-Balance name client w t =
      closed (open_for name client w t) (open_for-Balance name client w t)
    where
      closed :
          (x : Outcome (List DetailedError) (Unit {0}) × WelcomeThread × Log)
          → Ensures (Balanced d 0 0 t) (Balanced d 0 0 t) x
          → Ensures
              (Balanced d (one client d) 0 t)
              (Balanced d (one client d) 0 t)
              (x.0, x.1, (Call.close client, k.answer x.2 (Call.close client)) ∷ x.2)
      closed (ok _, w', u) h = omega (arith, h)
      closed (err _, w', u) h = omega (arith, h)
      closed (panic, w', u) h = absurd h

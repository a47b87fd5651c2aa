-- ===== src/WelcomeThread/Threads/Receiving.antt =====
-- Receiving a request touches neither the environments nor a thread.
use garnd.Prelude.{suc_not_zero, ℕ, zero, suc, refl, inl, inr, ◌∷◌}
use garnd.Io.{Call, done, Log, Kernel, Ensures, Reply-cases, resume-Ensures, recover-Ensures}
use garnd.Protocols.{Garnshared}
use garnd.Protocols.Tally.{parse_request_tally}
use garnd.Environment.Threads.{tally}
use garnd.WelcomeThread.{WelcomeThread, checked_request, receive_and_parse_request}
use garnd.WelcomeThread.Threads.{Unmoved}

module _ ⦃k : Kernel⦄ ⦃g : Garnshared⦄ where
  checked_request-Unmoved :
      (fd : ℕ) (w : WelcomeThread) (t : Log)
      → Ensures (Unmoved w t) (Unmoved w t) (checked_request fd w t)
  unfolding checked_request
  checked_request-Unmoved fd w t = elim (Reply-cases (k.answer t (Call.peer_uid fd))) [
    | inl (zero, root) ↦ rw root (refl, refl)
    | inl (suc uid, user) ↦
        elim (Reply-cases
          (k.answer ((Call.peer_uid fd, done (suc uid)) ∷ t) (Call.recv fd g.welcome.max_size))) [
            | inl (n, got) ↦
                rw (user, suc_not_zero uid, got)
                  (parse_request_tally g.welcome tally (λ fd text r u. refl) fd _ w _)
            | inr (n, lost) ↦ rw (user, suc_not_zero uid, lost) (refl, refl)
          ]
    | inr (n, unknown) ↦ rw unknown (refl, refl)
  ]

  pub receive-Unmoved :
      (socket : ℕ) (w : WelcomeThread) (t : Log)
      → Ensures (Unmoved w t) (Unmoved w t) (receive_and_parse_request socket w t)
  unfolding receive_and_parse_request
  receive-Unmoved socket w t = elim (Reply-cases (k.answer t (Call.accept socket))) [
    | inl (fd, accepted) ↦ rw accepted (
        resume-Ensures (Unmoved w t) (Unmoved w t) _ _ _ _
          (recover-Ensures (Unmoved w t) (Unmoved w t) _ _ (checked_request fd w _) _
            (checked_request-Unmoved fd w _) (λ _ _ _ x. x) (λ _ _ _ x. x))
          (λ _ _ _ x. x) (λ _ _ _ x. x))
    | inr (n, refused) ↦ rw refused (refl, refl)
  ]

-- ===== src/Protocols/Tally.antt =====
-- Answering a client leaves alone whatever is counted of the other calls.
use garnd.Prelude.{ℕ, ◌≡◌, refl, inl, inr, List, ◌∷◌, String}
use garnd.Errors.{DetailedError, system}
use garnd.Io.{
  Call, Reply, done, failed, Log, Kernel, Io, Ensures, Ensures-mono, recover-Ensures,
  resume-Ensures, Reply-cases,
}
use garnd.Protocols.{
  Protocol, send_about, unwrap_or_report_failure, reject_malformed, parse_request,
}

-- A count that messages to clients do not change.
abbrev pub IgnoresSend : {T : Type 0} → (Log → T) → Type 0
IgnoresSend f =
    (fd : ℕ) (text : String) (r : Reply ℕ) (t : Log) → f ((Call.send fd text, r) ∷ t) ≡ f t

module _ ⦃k : Kernel⦄ {Request Response S T : Type 0} (p : Protocol Request Response) (f : Log → T)
    (ignores : IgnoresSend f) where
  send_about_tally :
      (A : Type 0) (fd : ℕ) (text : String) (e : DetailedError) (s : S) (t : Log)
      → Ensures {A = A} (λ _ _ _. ⊥) (λ _ s' u. (s' ≡ s) × (f u ≡ f t)) (send_about p fd text e s t)
  unfolding send_about
  send_about_tally A fd text e s t = elim (Reply-cases (k.answer t (Call.send fd text))) [
    | inl (n, sent) ↦ rw sent (refl, ignores fd text (done n) t)
    | inr (n, lost) ↦ rw lost (refl, ignores fd text (failed n) t)
  ]

  pub unwrap_or_report_failure_tally :
      {A : Type 0} (m : Io S DetailedError A) (fd : ℕ) (P : A → S → Log → Type 0)
      (Q : S → Log → Type 0) (s : S) (t : Log)
      → ((s : S) (t u : Log) → f u ≡ f t → Q s t → Q s u)
      → Ensures P (λ _ s' u. Q s' u) (m s t)
      → Ensures P (λ _ s' u. Q s' u) (unwrap_or_report_failure p m fd s t)
  unfolding unwrap_or_report_failure
  unwrap_or_report_failure_tally {A} m fd P Q s t same h =
      recover-Ensures P (λ _ s' u. Q s' u) _ _ (m s t) _ h (λ _ _ _ x. x)
        (λ e s' u q.
          Ensures-mono (λ _ _ _. ⊥) (λ _ s'' v. (s'' ≡ s') × (f v ≡ f u)) P (λ _ s'' v. Q s'' v)
            (send_about p fd p.serialize_internal_error e s' u)
            (send_about_tally A fd p.serialize_internal_error e s' u) (λ _ _ _ x. absurd x)
            (λ _ s'' v (e', n). rw e' (same s' u v n q)))

  reject_malformed_tally :
      (A : Type 0) (fd : ℕ) (e : DetailedError) (s : S) (t : Log)
      → Ensures {A = A}
          (λ _ _ _. ⊥)
          (λ _ s' u. (s' ≡ s) × (f u ≡ f t))
          (reject_malformed p fd e s t)
  unfolding reject_malformed
  reject_malformed_tally A fd e s t = elim (Reply-cases (p.serialize p.malformed_request)) [
    | inl (text, good) ↦ rw good (send_about_tally A fd text e s t)
    | inr (n, bad) ↦ rw bad (refl, refl)
  ]

  pub parse_request_tally :
      (fd : ℕ) (buffer : List ℕ) (s : S) (t : Log)
      → Ensures
          (λ _ s' u. (s' ≡ s) × (f u ≡ f t))
          (λ _ s' u. (s' ≡ s) × (f u ≡ f t))
          (parse_request p fd buffer s t)
  unfolding parse_request
  parse_request_tally fd buffer s t = elim (Reply-cases (p.from_utf8 buffer)) [
    | inl (line, valid) ↦ rw valid (elim (Reply-cases (p.deserialize line)) [
      | inl (r, parsed) ↦ rw parsed (refl, refl)
      | inr (n, refused) ↦ rw refused (
          Ensures-mono (λ _ _ _. ⊥) (λ _ s' u. (s' ≡ s) × (f u ≡ f t)) _ _
            (reject_malformed p fd (system n) s t)
            (reject_malformed_tally Request fd (system n) s t) (λ _ _ _ x. absurd x) (λ _ _ _ x. x))
    ])
    | inr (n, invalid) ↦ rw invalid (
        resume-Ensures (λ _ _ _. ⊥) (λ _ s' u. (s' ≡ s) × (f u ≡ f t)) _ _
          (reject_malformed p fd (system n) s t) _ (reject_malformed_tally String fd (system n) s t)
          (λ _ _ _ x. absurd x) (λ _ _ _ x. x))
  ]

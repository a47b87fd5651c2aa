-- ===== src/Protocols/Answers.antt =====
-- How many messages the error answers send.
use garnd.Prelude.{ℕ, ◌+◌, ◌≡◌, refl, inl, inr, List, ◌∷◌, String, arith, ◌==◌}
use garnd.Errors.{DetailedError, system}
use garnd.Io.{
  Call, Reply, done, failed, convert, Log, Kernel, Io, Outcome, ok, err, panic, Silent, answered,
  Ensures, recover, Ensures-mono, resume-Ensures, Reply-cases,
}
use garnd.Protocols.{
  Protocol, send_about, unwrap_or_report_failure, reject_malformed, parse_request,
}

-- The client has got `n` messages more.
abbrev pub Answers : {S E A : Type 0} → ℕ → ℕ → Log → Outcome E A × S × Log → Type 0
Answers n fd t (_, _, t') = answered fd t' ≡ answered fd t + n

module _ ⦃k : Kernel⦄ {Request Response S A : Type 0} (p : Protocol Request Response) (fd : ℕ)
    (P : A → S → Log → Type 0) (Q : S → Type 0) where
  -- The error answer is one message, whether it gets through or not, and the state stays.
  pub send_about_one :
      (text : String) (e : DetailedError) (s : S) (t : Log)
      → Q s
      → Ensures P
          (λ _ s' t'. Q s' × (answered fd t' ≡ answered fd t + 1))
          (send_about p fd text e s t)
  unfolding send_about
  send_about_one text e s t q = elim (Reply-cases (k.answer t (Call.send fd text))) [
    | inl (_, sent) ↦ rw (sent, ◌==◌) (q, ground arith)
    | inr (_, refused) ↦ rw refused (q, ground arith)
  ]

module _ ⦃k : Kernel⦄ {Request Response S A : Type 0} (p : Protocol Request Response) (fd : ℕ)
    (P : A → S → Log → Type 0) (Q : S → Type 0) where
  answer_failure :
      (t : Log) (x : Outcome DetailedError A × S × Log)
      → Ensures P (λ _ s' _. Q s') x
      → Silent fd t x
      → Ensures
          (λ a s' t'. P a s' t' × (answered fd t' ≡ answered fd t))
          (λ _ s' t'. Q s' × (answered fd t' ≡ answered fd t + 1))
          (recover x (send_about p fd p.serialize_internal_error))
  answer_failure t (ok a, s, u) h silent = (h, silent)
  answer_failure t (err e, s, u) h silent =
      Ensures-mono P' (λ _ s' t'. Q s' × (answered fd t' ≡ answered fd u + 1)) P' _
        (send_about p fd p.serialize_internal_error e s u)
        (send_about_one p fd P' Q p.serialize_internal_error e s u h) (λ _ _ _ h. h)
        (λ _ s' t' (q, n). (q, omega (arith, silent)))
    where
      P' : A → S → Log → Type 0
      P' a s' t' = P a s' t' × (answered fd t' ≡ answered fd t)
  answer_failure t (panic, s, u) h silent = absurd h

  -- What `unwrap_or_report_failure!` lets through has sent nothing; a failure is answered once.
  pub unwrap_or_report_failure_answers :
      (m : Io S DetailedError A) (s : S) (t : Log)
      → Ensures P (λ _ s' _. Q s') (m s t)
      → Silent fd t (m s t)
      → Ensures
          (λ a s' t'. P a s' t' × (answered fd t' ≡ answered fd t))
          (λ _ s' t'. Q s' × (answered fd t' ≡ answered fd t + 1))
          (unwrap_or_report_failure p m fd s t)
  unfolding unwrap_or_report_failure
  unwrap_or_report_failure_answers m s t h silent = answer_failure t (m s t) h silent

-- A conversion that failed has left the error answer in the log.
pub unwrap_or_report_failure-convert :
    ⦃k : Kernel⦄ {Request Response S A : Type 0} (p : Protocol Request Response) (fd : ℕ)
    (r : Reply A) (s : S) (t : Log)
    → Ensures
        (λ a s' u. (s' ≡ s) × (u ≡ t) × (r ≡ done a))
        (λ _ s' u. (s' ≡ s) × (text : String) × (m : Reply ℕ) × (u ≡ (Call.send fd text, m) ∷ t))
        (unwrap_or_report_failure p (convert r) fd s t)
unfolding unwrap_or_report_failure send_about
unwrap_or_report_failure-convert p fd (done a) s t = (refl, refl, refl)
unwrap_or_report_failure-convert ⦃k⦄ p fd (failed n) s t =
    elim (Reply-cases (k.answer t (Call.send fd p.serialize_internal_error))) [
      | inl (m, sent) ↦ rw sent (refl, p.serialize_internal_error, done m, refl)
      | inr (m, refused) ↦ rw refused (refl, p.serialize_internal_error, failed m, refl)
    ]

module _ ⦃k : Kernel⦄ {Request Response S A : Type 0} (p : Protocol Request Response) (fd : ℕ)
    (P : A → S → Log → Type 0) (Q : S → Type 0) {text : String}
    (answer : p.serialize p.malformed_request ≡ done text) where
  reject_malformed_one :
      (e : DetailedError) (s : S) (t : Log)
      → Q s
      → Ensures P
          (λ _ s' t'. Q s' × (answered fd t' ≡ answered fd t + 1))
          (reject_malformed p fd e s t)
  unfolding reject_malformed
  reject_malformed_one e s t q = rw answer (send_about_one p fd P Q text e s t q)

module _ ⦃k : Kernel⦄ {Request Response S : Type 0} (p : Protocol Request Response) (fd : ℕ)
    (Q : S → Type 0) {text : String} (answer : p.serialize p.malformed_request ≡ done text) where
  -- A request that parses has been answered by nothing yet; any other has got its one answer.
  pub parse_request_answers :
      (buffer : List ℕ) (s : S) (t : Log)
      → Q s
      → Ensures
          (λ _ s' t'. Q s' × (answered fd t' ≡ answered fd t))
          (λ _ s' t'. Q s' × (answered fd t' ≡ answered fd t + 1))
          (parse_request p fd buffer s t)
  unfolding parse_request
  parse_request_answers buffer s t q = elim (Reply-cases (p.from_utf8 buffer)) [
    | inl (line, valid) ↦ rw valid (elim (Reply-cases (p.deserialize line)) [
      | inl (r, parsed) ↦ rw parsed (q, refl)
      | inr (n, refused) ↦ rw refused (reject_malformed_one p fd _ Q answer (system n) s t q)
    ])
    | inr (n, invalid) ↦ rw invalid (
        resume-Ensures (λ _ _ _. ⊥) (λ _ s' t'. Q s' × (answered fd t' ≡ answered fd t + 1)) _ _
          (reject_malformed p fd (system n) s t) _
          (reject_malformed_one p fd _ Q answer (system n) s t q) (λ _ _ _ h. absurd h)
          (λ _ _ _ h. h))
  ]

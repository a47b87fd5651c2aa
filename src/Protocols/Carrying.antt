-- ===== src/Protocols/Carrying.antt =====
-- Answering a client carries along what any message to a client may follow.
use garnd.Prelude.{ℕ, List, String}
use garnd.Errors.{DetailedError}
use garnd.Io.{
  Call, Log, Kernel, Io, Allows, Carries, Carries-resume, Carries-recover, call-Carries,
  convert-Carries, fail-Carries,
}
use garnd.Protocols.{
  Protocol, send_about, unwrap_or_report_failure, reject_malformed, parse_request,
}

module _ ⦃k : Kernel⦄ {Request Response S : Type 0} (p : Protocol Request Response)
    (R : S → Log → Type 0) (allows : (fd : ℕ) (text : String) → Allows R (Call.send fd text)) where
  send_about-Carries :
      {A : Type 0} (fd : ℕ) (text : String) (e : DetailedError)
      → Carries {A = A} R (send_about p fd text e)
  unfolding send_about
  send_about-Carries fd text e =
      Carries-resume R _ _
        (Carries-recover R _ _ (call-Carries R (Call.send fd text) (allows fd text))
          (λ e'. fail-Carries R _))
        (λ _. fail-Carries R _)

  pub unwrap_or_report_failure-Carries :
      {A : Type 0} (m : Io S DetailedError A) (fd : ℕ)
      → Carries R m
      → Carries R (unwrap_or_report_failure p m fd)
  unfolding unwrap_or_report_failure
  unwrap_or_report_failure-Carries m fd h =
      Carries-recover R m _ h (λ e. send_about-Carries fd p.serialize_internal_error e)

  reject_malformed-Carries :
      {A : Type 0} (fd : ℕ) (e : DetailedError) → Carries {A = A} R (reject_malformed p fd e)
  unfolding reject_malformed
  reject_malformed-Carries fd e =
      Carries-resume R _ _
        (Carries-recover R _ _ (convert-Carries R (p.serialize p.malformed_request))
          (λ e'. fail-Carries R _))
        (λ response. send_about-Carries fd response e)

  pub parse_request-Carries : (fd : ℕ) (buffer : List ℕ) → Carries R (parse_request p fd buffer)
  unfolding parse_request
  parse_request-Carries fd buffer =
      Carries-resume R _ _
        (Carries-recover R _ _ (convert-Carries R (p.from_utf8 buffer))
          (reject_malformed-Carries fd))
        (λ text.
          Carries-recover R _ _ (convert-Carries R (p.deserialize text))
            (reject_malformed-Carries fd))

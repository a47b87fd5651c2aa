-- ===== src/Signals/Forward.antt =====
-- Start-up only adds to the log, however it ends.
use garnd.Prelude.{ℕ, Option, none, some}
use garnd.Io.{
  termination_signal_handler, reload_signal_handler, Call, Reply, Kernel, pure-Grows, fail-Grows,
  get-Grows, modify-Grows, ignore-Grows, Grows, Grows-resume, Grows-recover, call-Grows,
  convert-Grows,
}
use garnd.Signals.{
  setup_socket, setup_events, adopt_shutdown_event, adopt_reload_event, bind_error, sigterm, sigint,
  sighup,
}

module _ ⦃k : Kernel⦄ where
  pub setup_socket-Grows : {S : Type 0} (address : Reply ℕ) → Grows {S = S} (setup_socket address)
  unfolding setup_socket
  setup_socket-Grows address = Grows-resume _ _ (call-Grows Call.socket) (λ fd.
      Grows-resume _ _
        (Grows-recover _ _
          (Grows-resume _ _ (call-Grows (Call.set_pass_cred fd)) (λ _.
            Grows-resume _ _ (convert-Grows address) (λ _.
              Grows-recover _ _ (call-Grows (Call.bind_welcome fd))
                (λ e. fail-Grows (bind_error e)))))
          (λ e. Grows-resume _ _ (ignore-Grows (Call.close fd)) (λ _. fail-Grows e)))
        (λ _. pure-Grows fd))

  adopt_shutdown_event-Grows : (new : ℕ) (old : Option ℕ) → Grows (adopt_shutdown_event new old)
  unfolding adopt_shutdown_event
  adopt_shutdown_event-Grows new none = Grows-resume _ _ (modify-Grows _) (λ _. pure-Grows new)
  adopt_shutdown_event-Grows new (some fd) =
      Grows-resume _ _ (ignore-Grows (Call.close new)) (λ _. pure-Grows fd)

  adopt_reload_event-Grows : (new : ℕ) (old : Option ℕ) → Grows (adopt_reload_event new old)
  unfolding adopt_reload_event
  adopt_reload_event-Grows new none = Grows-resume _ _ (modify-Grows _) (λ _. pure-Grows new)
  adopt_reload_event-Grows new (some fd) =
      Grows-resume _ _ (ignore-Grows (Call.close new)) (λ _. pure-Grows fd)

  pub setup_events-Grows : Grows setup_events
  unfolding setup_events
  setup_events-Grows = Grows-resume _ _ (call-Grows Call.eventfd_new) (λ shutdown.
      Grows-resume _ _
        (Grows-recover _ _ (call-Grows Call.eventfd_new)
          (λ e. Grows-resume _ _ (ignore-Grows (Call.close shutdown)) (λ _. fail-Grows e)))
        (λ reload. Grows-resume _ _ get-Grows (λ st.
          Grows-resume _ _ (adopt_shutdown_event-Grows shutdown st.shutdown_event_for_signal) (λ s.
            Grows-resume _ _ (adopt_reload_event-Grows reload st.reload_event_for_signal) (λ r.
              Grows-resume _ _ (call-Grows (Call.sigaction sigterm termination_signal_handler))
                (λ _.
                  Grows-resume _ _ (call-Grows (Call.sigaction sigint termination_signal_handler))
                    (λ _.
                      Grows-resume _ _ (call-Grows (Call.sigaction sighup reload_signal_handler))
                        (λ _. pure-Grows (s, r)))))))))

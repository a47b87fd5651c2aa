-- ===== src/Signals/Interrupt/Undisturbed.antt =====
-- The handler does not disturb the code that it interrupts.
use garnd.Prelude.{ℕ, ◌≡◌, refl, Bool, true, false, Option, none, some, List, [], ◌∷◌, ◌++◌, length}
use mathlib.Core.List.{append_assoc}
use garnd.Signals.{Statics}
use garnd.Signals.Interrupt.{
  Libc, Process, Interrupted, returns, exits, bytes, first_bytes, c_string, prelude, prelude_len,
  stderr, early_reload, early_termination, hand_over, write, restore_errno, write_event,
  error_in_brittle_scenario, on_event, termination_or_reload_handler,
}

-- `errno` is as before, and these pieces were handed over.
abbrev pub with_pieces : Process → List (ℕ × List ℕ) → Process
with_pieces s pieces = record { errno = s.errno; handed = s.handed ++ pieces }

-- A line for the journal.
abbrev pub line : List ℕ → List (ℕ × List ℕ)
line msg = (2, bytes "ERROR IN BRITTLE SCENARIO! ") ∷ (2, msg) ∷ (2, bytes "\n") ∷ []

-- The event gets a one, of eight bytes; without an event a line is written, and a termination exits.
abbrev pub Undisturbed : (is_reload : Bool) → Option ℕ → Process → Interrupted → Type 0
Undisturbed is_reload (some fd) s r =
    r ≡ returns (with_pieces s ((fd, 1 ∷ 0 ∷ 0 ∷ 0 ∷ 0 ∷ 0 ∷ 0 ∷ 0 ∷ []) ∷ []))
Undisturbed true none s r = r ≡ returns (with_pieces s (line early_reload))
Undisturbed false none s r = r ≡ exits (with_pieces s (line early_termination))

first_bytes-length : (memory : List ℕ) → first_bytes (length memory) memory ≡ some memory
unfolding first_bytes
first_bytes-length [] = refl
first_bytes-length (b ∷ memory) = rw (first_bytes-length memory) refl

abbrev pub event_of : Bool → Statics → Option ℕ
event_of true st = st.reload_event_for_signal
event_of false st = st.shutdown_event_for_signal

module _ ⦃c : Libc⦄ where
  written : ℕ → List ℕ → Process → Process
  written fd bs s = record {
    errno = c.errno_after_write s.handed fd bs s.errno;
    handed = s.handed ++ (fd, bs) ∷ [];
  }

  write_all :
      (fd : ℕ) (memory : List ℕ) (s : Process)
      → write fd memory (length memory) s ≡ some (written fd memory s)
  unfolding write hand_over written
  write_all fd memory s = rw (first_bytes-length memory) refl

  write_prelude :
      (s : Process)
      → write stderr (c_string prelude) prelude_len s ≡ some (written stderr prelude s)
  unfolding write hand_over written first_bytes
  write_prelude s = refl

  write_newline :
      (s : Process)
      → write stderr (c_string (bytes "\n")) 1 s ≡ some (written stderr (bytes "\n") s)
  unfolding write hand_over written first_bytes
  write_newline s = refl

  error_in_brittle_scenario_lem :
      (msg : List ℕ) (s : Process)
      → error_in_brittle_scenario msg s ≡ some (with_pieces s (line msg))
  unfolding error_in_brittle_scenario restore_errno
  error_in_brittle_scenario_lem msg s =
      let s₁ : Process = written stderr prelude s in
      let s₂ : Process = written stderr msg s₁ in
      rw (write_prelude s, write_all stderr msg s₁, write_newline s₂)
        (unfold written in simp append_assoc refl)

  on_event_lem :
      (is_reload : Bool) (event : Option ℕ) (s : Process)
      → Undisturbed is_reload event s (on_event is_reload event s)
  unfolding on_event write_event write hand_over first_bytes restore_errno
  on_event_lem is_reload (some fd) s = refl
  on_event_lem true none s = rw (error_in_brittle_scenario_lem early_reload s) refl
  on_event_lem false none s = rw (error_in_brittle_scenario_lem early_termination s) refl

  -- Whatever `write` does to `errno`, the handler of the signals leaves `errno` as it was and reads
  -- nothing past the end of a text or number. If its event is set up, it hands over the number one, of
  -- eight bytes, to that event, and nothing else; if not, it hands over one line with the reason to
  -- stderr, and exits for a termination.
  pub termination_or_reload_handler-Undisturbed :
      (is_reload : Bool) (st : Statics) (s : Process)
      → Undisturbed is_reload
          (event_of is_reload st)
          s
          (termination_or_reload_handler is_reload st s)
  unfolding termination_or_reload_handler
  termination_or_reload_handler-Undisturbed true st s =
      on_event_lem true st.reload_event_for_signal s
  termination_or_reload_handler-Undisturbed false st s =
      on_event_lem false st.shutdown_event_for_signal s

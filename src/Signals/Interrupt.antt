-- ===== src/Signals/Interrupt.antt =====
-- The signal handler of src/linux/runtime.rs and `error_in_brittle_scenario` of src/linux/util.rs, as
-- the code that they interrupt sees them: by the bytes that are handed to `write`, and by `errno`. What
-- `write` leaves in `errno` is a parameter. Texts are ASCII, and a number's low byte comes first.
pub mod Undisturbed
use Prim.Native.Char.{code}
use garnd.Prelude.{
  ℕ, zero, suc, ◌≡◌, refl, ap, ◌∙◌, Bool, true, false, Option, none, some, List, [], ◌∷◌, ◌++◌,
  String, map, length,
}
use mathlib.Core.Option.{map as option_map}
use garnd.Messages.{chars}
use garnd.Signals.{Statics}

-- `write` at a file descriptor, after what was handed over before, and with an `errno` from before.
pub record Libc : Type 0 where
  pub errno_after_write : List (ℕ × List ℕ) → (fd : ℕ) → List ℕ → ℕ → ℕ

pub record Process : Type 0 where
  pub errno : ℕ
  -- what was handed to `write`, with its descriptor, the last piece at the end
  pub handed : List (ℕ × List ℕ)

abbrev bytes : String → List ℕ
bytes s = map code (chars s)

-- `STDERR_FILENO`
abbrev stderr : ℕ
stderr = 2

-- The first bytes of a piece of memory, if it has so many.
first_bytes : ℕ → List ℕ → Option (List ℕ)
first_bytes zero memory = some []
first_bytes (suc n) [] = none
first_bytes (suc n) (b ∷ memory) = option_map (λ bs. b ∷ bs) (first_bytes n memory)

-- `none` is a read past the end of the memory: the behaviour is undefined.
abbrev Step : Type 0
Step = Process → Option Process

abbrev go_on : Option Process → Step → Option Process
go_on none f = none
go_on (some s) f = f s

infixl 5 ◌then◌
abbrev ◌then◌ : Step → Step → Step
◌then◌ f g s = go_on (f s) g

hand_over : ⦃c : Libc⦄ → (fd : ℕ) → Option (List ℕ) → Step
hand_over fd none s = none
hand_over ⦃c⦄ fd (some bs) s = some (record {
  errno = c.errno_after_write s.handed fd bs s.errno;
  handed = s.handed ++ (fd, bs) ∷ [];
})

-- Its result is not looked at.
write : ⦃c : Libc⦄ → (fd : ℕ) → (memory : List ℕ) → (count : ℕ) → Step
write fd memory count = hand_over fd (first_bytes count memory)

restore_errno : ℕ → Step
restore_errno last_errno s = some (record s { errno = last_errno })

abbrev prelude : List ℕ
prelude = bytes "ERROR IN BRITTLE SCENARIO! "

abbrev prelude_len : ℕ
prelude_len = 27

-- A C string ends with a zero byte.
abbrev c_string : List ℕ → List ℕ
c_string text = text ++ 0 ∷ []

error_in_brittle_scenario : ⦃c : Libc⦄ → (msg : List ℕ) → Step
error_in_brittle_scenario msg s =
    let last_errno = s.errno in
    (write stderr (c_string prelude) prelude_len
        then write stderr msg (length msg)
        then write stderr (c_string (bytes "\n")) 1
        then restore_errno last_errno)
      s

-- The process goes on, or exits, or its behaviour is undefined.
pub data Interrupted : Type 0 where
  returns exits : Process → Interrupted
  undefined : Interrupted

abbrev returned : Option Process → Interrupted
returned none = undefined
returned (some s) = returns s

abbrev exited : Option Process → Interrupted
exited none = undefined
exited (some s) = exits s

-- `1u64`
abbrev one_u64 : List ℕ
one_u64 = 1 ∷ 0 ∷ 0 ∷ 0 ∷ 0 ∷ 0 ∷ 0 ∷ 0 ∷ []

write_event : ⦃c : Libc⦄ → ℕ → Step
write_event fd s = let last_errno = s.errno in (write fd one_u64 8 then restore_errno last_errno) s

abbrev early_reload : List ℕ
early_reload =
    bytes "Reload requested in an early or severely invalid state of the program, continuing."

abbrev early_termination : List ℕ
early_termination =
    bytes "Termination requested in an early or severely invalid state of the program, exiting."

-- The event of the handler, which has `-1` where none was set up, for a reload or a termination.
on_event : ⦃c : Libc⦄ → (is_reload : Bool) → (fd : Option ℕ) → Process → Interrupted
on_event is_reload (some fd) s = returned (write_event fd s)
on_event true none s = returned (error_in_brittle_scenario early_reload s)
on_event false none s = exited (error_in_brittle_scenario early_termination s)

pub termination_or_reload_handler :
    ⦃c : Libc⦄ → (is_reload : Bool) → Statics → Process → Interrupted
termination_or_reload_handler true st s = on_event true st.reload_event_for_signal s
termination_or_reload_handler false st s = on_event false st.shutdown_event_for_signal s

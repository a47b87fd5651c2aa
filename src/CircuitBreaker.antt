-- ===== src/CircuitBreaker.antt =====
-- src/linux/circuit_breaker.rs: the guard against reload loops. The three static atomics are a
-- record; `CLOCK_MONOTONIC_COARSE` is read by the caller of the model, `none` being a failed read.
-- `instant_exit` kills the process: nothing follows it.
pub mod Elapsed
pub mod Rate
mod Tests
use garnd.Prelude.{
  ℕ, ◌+◌, ◌%◌, ◌^◌, Bool, true, false, Option, none, some, List, [], ◌∷◌, leb, if◌then◌else◌,
}
use garnd.Prelude.Int.{ℤ, pos, ltb_ℤ, sub_i64}
use garnd.Constants.{circuit_breaker_epoch_seconds, circuit_breaker_reloads_per_epoch}

pub record Breaker : Type 0 where
  pub epoch_start_seconds : ℤ
  pub epoch_start_nanoseconds : ℤ
  pub reloads_since_epoch_start : ℕ

-- The statics as the program starts.
abbrev pub start : Breaker
start = record {
  epoch_start_seconds = pos 0;
  epoch_start_nanoseconds = pos 0;
  reloads_since_epoch_start = 0;
}

pub record TimeSpec : Type 0 where
  pub tv_sec : ℤ
  pub tv_nsec : ℤ

pub data Verdict : Type 0 where
  instant_exit : Verdict
  reload : Breaker → Verdict

-- `i64::from(bool)`
abbrev pub to_i64 : Bool → ℤ
to_i64 true = pos 1
to_i64 false = pos 0

pub seconds_since_epoch_start : Breaker → TimeSpec → ℤ
seconds_since_epoch_start b now =
    sub_i64 (sub_i64 now.tv_sec b.epoch_start_seconds)
      (to_i64 (ltb_ℤ now.tv_nsec b.epoch_start_nanoseconds))

-- The body once the clock has been read. `usize` additions wrap.
pub at_time : Breaker → TimeSpec → Verdict
at_time b now =
    if ltb_ℤ (pos circuit_breaker_epoch_seconds) (seconds_since_epoch_start b now)
    then reload (record {
      epoch_start_seconds = now.tv_sec;
      epoch_start_nanoseconds = now.tv_nsec;
      reloads_since_epoch_start = 1;
    })
    else if leb circuit_breaker_reloads_per_epoch ((b.reloads_since_epoch_start + 1) % 2 ^ 64)
    then instant_exit
    else reload
        (record b { reloads_since_epoch_start = (b.reloads_since_epoch_start + 1) % 2 ^ 64 })

pub circuit_breaker : Breaker → Option TimeSpec → Verdict
circuit_breaker b none = instant_exit
circuit_breaker b (some now) = at_time b now

-- One reload after another, until the breaker trips.
pub reloads : Breaker → List (Option TimeSpec) → Verdict
reloads b [] = reload b
reloads b (t ∷ ts) = elim (circuit_breaker b t) [
  | instant_exit ↦ instant_exit
  | reload b' ↦ reloads b' ts
]

-- ===== src/CircuitBreaker/Elapsed.antt =====
-- `seconds_since_epoch_start` is the number of whole seconds between two readings of the clock.
use garnd.Prelude.{ℕ, ◌+◌, ◌-◌, ◌*◌, ◌/◌, ◌^◌, ◌≤◌, ◌<◌, ◌≡◌, arith}
use garnd.Prelude.Int.{pos}
use garnd.CircuitBreaker.{seconds_since_epoch_start}

abbrev pub nanoseconds_per_second : ℕ
nanoseconds_per_second = 1_000_000_000

-- A reading in nanoseconds.
abbrev pub in_ns : (seconds nanoseconds : ℕ) → ℕ
in_ns s n = s * nanoseconds_per_second + n

-- The subtraction with a borrow computes the whole seconds that lie between two readings of a
-- monotonic clock: the nanoseconds between them, divided by a thousand million, rounded down. The
-- later reading's seconds fit `i64`, and the nanoseconds of both are below a thousand million.
pub seconds_since_epoch_start_floor :
    (s₀ n₀ s n count : ℕ)
    → s < 2 ^ 63
    → n₀ < nanoseconds_per_second
    → n < nanoseconds_per_second
    → in_ns s₀ n₀ ≤ in_ns s n
    → seconds_since_epoch_start
        (record {
          epoch_start_seconds = pos s₀;
          epoch_start_nanoseconds = pos n₀;
          reloads_since_epoch_start = count;
        })
        (record { tv_sec = pos s; tv_nsec = pos n })
      ≡ pos ((in_ns s n - in_ns s₀ n₀) / nanoseconds_per_second)
unfolding seconds_since_epoch_start
seconds_since_epoch_start_floor s₀ n₀ s n count h h₀ h₁ le = ground arith

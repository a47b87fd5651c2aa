-- ===== src/CircuitBreaker/Rate.antt =====
-- How many reloads an epoch admits.
use garnd.Prelude.{
  ℕ, ◌+◌, ◌≤◌, ◌<◌, ◌≡◌, refl, ◌^◌, true, false, Option, some, List, [], ◌∷◌, map, arith, leb, ◌⊎◌,
  inl, inr, length, length-map, if◌then◌else◌, All,
}
use garnd.Prelude.Int.{pos, ltb_ℤ}
use garnd.CircuitBreaker.{
  Breaker, TimeSpec, Verdict, instant_exit, reload, seconds_since_epoch_start, at_time,
  circuit_breaker, reloads,
}
use garnd.CircuitBreaker.Elapsed.{nanoseconds_per_second, in_ns, seconds_since_epoch_start_floor}

-- A reading at which the breaker does not begin a new epoch.
abbrev pub InEpoch : Breaker → TimeSpec → Type 0
InEpoch b now = ltb_ℤ (pos 3) (seconds_since_epoch_start b now) ≡ false

-- The epoch of a breaker whose counter stands at `n`.
abbrev pub counted : Breaker → ℕ → Breaker
counted b n = record b { reloads_since_epoch_start = n }

InEpoch-counted : (b : Breaker) (n : ℕ) (now : TimeSpec) → InEpoch b now → InEpoch (counted b n) now
unfolding seconds_since_epoch_start
InEpoch-counted b n now h = h

at_time-InEpoch :
    (b : Breaker) (now : TimeSpec)
    → InEpoch b now
    → b.reloads_since_epoch_start ≤ 99
    → at_time b now ≡ (
        if leb 99 b.reloads_since_epoch_start
        then instant_exit
        else reload (counted b (b.reloads_since_epoch_start + 1)))
unfolding at_time
at_time-InEpoch b now h le = ground arith

pub All-counted :
    (b : Breaker) (n : ℕ) (ts : List TimeSpec) → All (InEpoch b) ts → All (InEpoch (counted b n)) ts
All-counted b n [] h = tt
All-counted b n (now ∷ ts) h = (InEpoch-counted b n now h.0, All-counted b n ts h.1)

-- The breaker is exact: with the counter at 99 or less, a run of reloads that all fall into the
-- current epoch gets through, and adds its number to the counter, as long as that stays at 99 or
-- less; otherwise the process is killed.
pub reloads-InEpoch :
    (b : Breaker) (ts : List TimeSpec)
    → b.reloads_since_epoch_start ≤ 99
    → All (InEpoch b) ts
    → reloads b (map some ts) ≡ (
        if leb (b.reloads_since_epoch_start + length ts) 99
        then reload (counted b (b.reloads_since_epoch_start + length ts))
        else instant_exit)
unfolding reloads circuit_breaker
reloads-InEpoch b [] le h = ground arith
reloads-InEpoch b (now ∷ ts) le h = ground (
  arith,
  at_time-InEpoch b now h.0 le,
  All-counted b (b.reloads_since_epoch_start + 1) ts h.1,
  reloads-InEpoch (counted b (b.reloads_since_epoch_start + 1)) ts,
)

-- Readings (seconds, nanoseconds) less than four seconds after (s₀, n₀).
pub record Within4 (s₀ n₀ : ℕ) (t : ℕ × ℕ) : Type 0 where
  pub range : t.0 < 2 ^ 63
  pub nano : t.1 < nanoseconds_per_second
  pub later : in_ns s₀ n₀ ≤ in_ns t.0 t.1
  pub soon : in_ns t.0 t.1 < in_ns (s₀ + 4) n₀

abbrev pub reading : ℕ × ℕ → TimeSpec
reading t = record { tv_sec = pos t.0; tv_nsec = pos t.1 }

abbrev pub epoch : (s₀ n₀ : ℕ) → Breaker
epoch s₀ n₀ = record {
  epoch_start_seconds = pos s₀;
  epoch_start_nanoseconds = pos n₀;
  reloads_since_epoch_start = 1;
}

within-InEpoch :
    (s₀ n₀ : ℕ) (t : ℕ × ℕ)
    → n₀ < nanoseconds_per_second
    → Within4 s₀ n₀ t
    → InEpoch (epoch s₀ n₀) (reading t)
within-InEpoch s₀ n₀ (s, n) h w =
    rw (seconds_since_epoch_start_floor s₀ n₀ s n 1 w.range h w.nano w.later)
      (ground (arith, w.soon))

pub All-within :
    (s₀ n₀ : ℕ) (ts : List (ℕ × ℕ))
    → n₀ < nanoseconds_per_second
    → All (Within4 s₀ n₀) ts
    → All (InEpoch (epoch s₀ n₀)) (map reading ts)
All-within s₀ n₀ [] h w = tt
All-within s₀ n₀ (t ∷ ts) h w = (within-InEpoch s₀ n₀ t h w.0, All-within s₀ n₀ ts h w.1)

at_time_past :
    (b : Breaker) (s₀ n₀ : ℕ)
    → ltb_ℤ (pos 3) (seconds_since_epoch_start b (reading (s₀, n₀))) ≡ true
    → at_time b (reading (s₀, n₀)) ≡ reload (epoch s₀ n₀)
unfolding at_time
at_time_past b s₀ n₀ h = ground arith

-- Whatever the breaker's state, a reload that comes more than three whole seconds after the epoch
-- start gets through and starts an epoch. Of the reloads less than four seconds after that one,
-- in any number, 98 more get through, and with a 99th the process is killed.
pub reloads_new_epoch :
    (b : Breaker) (s₀ n₀ : ℕ) (ts : List (ℕ × ℕ))
    → ltb_ℤ (pos 3) (seconds_since_epoch_start b (reading (s₀, n₀))) ≡ true
    → n₀ < nanoseconds_per_second
    → All (Within4 s₀ n₀) ts
    → reloads b (some (reading (s₀, n₀)) ∷ map some (map reading ts)) ≡ (
        if leb (length ts) 98 then reload (counted (epoch s₀ n₀) (1 + length ts)) else instant_exit)
unfolding reloads circuit_breaker
reloads_new_epoch b s₀ n₀ ts past h w = ground (
  arith,
  at_time_past b s₀ n₀ past,
  reloads-InEpoch (epoch s₀ n₀) (map reading ts) (omega arith) (All-within s₀ n₀ ts h w),
  length-map reading ts,
)

-- A reload that is admitted.
pub reloads_cons :
    (b b₁ : Breaker) (t : Option TimeSpec) (ts : List (Option TimeSpec))
    → circuit_breaker b t ≡ reload b₁
    → reloads b (t ∷ ts) ≡ reloads b₁ ts
unfolding reloads
reloads_cons b b₁ t ts e = ground (arith, e)

pub reloads_none : (b : Breaker) → reloads b [] ≡ reload b
unfolding reloads
reloads_none b = refl

pub Verdict-cases : (v : Verdict) → (v ≡ instant_exit) ⊎ ((b : Breaker) × (v ≡ reload b))
Verdict-cases instant_exit = inl refl
Verdict-cases (reload b) = inr (b, refl)

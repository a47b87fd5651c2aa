-- ===== src/CircuitBreaker/Tests.antt =====
-- The breaker: src/linux/circuit_breaker.rs, with an epoch that starts at 100 s and half a second.
use garnd.Prelude.{◌≡◌, refl, some, [], ◌∷◌, arith}
use garnd.Prelude.Int.{pos}
use garnd.CircuitBreaker.{Breaker, reload, start, seconds_since_epoch_start, reloads}
use garnd.CircuitBreaker.Elapsed.{seconds_since_epoch_start_floor}
use garnd.CircuitBreaker.Rate.{counted, reading, epoch, reloads-InEpoch, reloads_new_epoch}

abbrev opened : Breaker
opened = epoch 100 500_000_000

-- 3.75 whole seconds later is still in the epoch.
seconds_since_epoch_start_floor_example :
    seconds_since_epoch_start opened (reading (104, 250_000_000)) ≡ pos 3
seconds_since_epoch_start_floor_example =
    seconds_since_epoch_start_floor 100 500_000_000 104 250_000_000 1 (omega arith) (omega arith)
      (omega arith) (omega arith)

reloads-InEpoch_example :
    reloads opened (some (reading (101, 0)) ∷ some (reading (104, 250_000_000)) ∷ [])
    ≡ reload (counted opened 3)
unfolding seconds_since_epoch_start
reloads-InEpoch_example =
    reloads-InEpoch opened (reading (101, 0) ∷ reading (104, 250_000_000) ∷ []) (omega arith)
      (refl, (refl, tt))

reloads_new_epoch_example :
    reloads start (some (reading (100, 500_000_000)) ∷ some (reading (104, 250_000_000)) ∷ [])
    ≡ reload (counted opened 2)
unfolding seconds_since_epoch_start
reloads_new_epoch_example =
    reloads_new_epoch start 100 500_000_000 ((104, 250_000_000) ∷ []) refl (omega arith)
      (omega arith)

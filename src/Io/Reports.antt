-- ===== src/Io/Reports.antt =====
-- The reporting macros of src/util.rs.
use garnd.Prelude.{List, [], ◌∷◌}
use garnd.Errors.{DetailedError}
use garnd.Io.Calls.{Call, Kernel}
use garnd.Io.Monad.{Io, panics, pure, or_else, call, ◌>>◌}

-- `send_error!`: a closed channel is a panic.
unfoldable pub send_error : ⦃k : Kernel⦄ {S E : Type 0} → DetailedError → Io S E (Unit {0})
send_error e = or_else (do call (Call.send_error e); pure tt) (λ _. panics)

-- `send_all_errors!`
unfoldable pub send_all_errors :
    ⦃k : Kernel⦄ {S E : Type 0} → List DetailedError → Io S E (Unit {0})
unfolding send_error
send_all_errors [] = pure tt
send_all_errors (e ∷ es) = do send_error e; send_all_errors es

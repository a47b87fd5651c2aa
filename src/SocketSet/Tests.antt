-- ===== src/SocketSet/Tests.antt =====
-- A set of two sockets.
use garnd.Prelude.{[], ◌∷◌, arith}
use garnd.Io.{Ensures}
use garnd.Io.Samples.{working}
use garnd.SocketSet.{SocketSet, contains, remove}
use garnd.SocketSet.Laws.{NoRepetition, Removed, remove-Removed}

abbrev two_sockets : SocketSet
two_sockets = 5 ∷ 8 ∷ []

two_sockets-NoRepetition : NoRepetition two_sockets
unfolding contains
two_sockets-NoRepetition = ground arith

remove-Removed_example :
    Ensures {E = ⊥} (Removed 8 two_sockets []) (λ _ _ _. ⊥) (remove 8 two_sockets [])
remove-Removed_example = remove-Removed ⊥ 8 two_sockets [] two_sockets-NoRepetition

-- ===== src/SocketSet.antt =====
-- `SocketSet` of src/linux/environment_synchronization_thread.rs: the client sockets that the thread
-- owns, by descriptor. The hash set is a list without repetition; its order means nothing.
pub mod Laws
mod Tests
use garnd.Prelude.{ℕ, Bool, true, false, List, [], ◌∷◌, ◌==◌, if◌then◌else◌}
use garnd.Io.{Call, Kernel, Io, pure, get, put, ignore, ◌>>=◌, ◌>>◌}

abbrev pub SocketSet : Type 0
SocketSet = List ℕ

pub contains : ℕ → SocketSet → Bool
contains fd [] = false
contains fd (s ∷ ss) = if s == fd then true else contains fd ss

pub insert : ℕ → SocketSet → SocketSet
insert fd ss = if contains fd ss then ss else fd ∷ ss

-- `HashSet::remove`, the set that is left
pub erase : ℕ → SocketSet → SocketSet
erase fd [] = []
erase fd (s ∷ ss) = if s == fd then ss else s ∷ erase fd ss

-- `remove`: the descriptor is closed if it was in the set.
pub remove : ⦃k : Kernel⦄ {E : Type 0} → ℕ → Io SocketSet E Bool
remove fd = do
  ss ← get
  if contains fd ss then (do put (erase fd ss); ignore (Call.close fd); pure true) else pure false

close_each : ⦃k : Kernel⦄ {E : Type 0} → List ℕ → Io SocketSet E (Unit {0})
close_each [] = pure tt
close_each (fd ∷ fds) = do ignore (Call.close fd); close_each fds

-- `Drop`
pub drop_sockets : ⦃k : Kernel⦄ {E : Type 0} → Io SocketSet E (Unit {0})
drop_sockets = do ss ← get; put []; close_each ss

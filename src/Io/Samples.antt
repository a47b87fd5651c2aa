-- ===== src/Io/Samples.antt =====
-- A kernel for the tests: every call succeeds, and descriptors and addresses count up from 3.
use garnd.Prelude.{ℕ, suc, some, [], ◌∷◌}
use garnd.Prelude.Int.{pos}
use garnd.Io.Calls.{Log, Kernel, done}

abbrev pub count_from_3 : Log → ℕ
count_from_3 [] = 3
count_from_3 (_ ∷ t) = suc (count_from_3 t)

instance abbrev pub working : Kernel
working = record {
  answer = λ t c. done (count_from_3 t);
  buffer = λ t. [];
  page_size = λ t. done (some (pos 4096));
}

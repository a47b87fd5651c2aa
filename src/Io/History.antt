-- ===== src/Io/History.antt =====
-- How one log comes after another.
use mathlib.Core.List.{append_assoc}
use garnd.Prelude.{ℕ, ◌≡◌, refl, ◌∙◌, ap, List, [], ◌∷◌, ◌++◌}
use garnd.Errors.{DetailedError}
use garnd.Io.Calls.{Call, Log, done}

-- A log that came after another.
abbrev pub Since : Log → Log → Type 0
Since t u = (x : Log) × (u ≡ x ++ t)

pub Since-refl : (t : Log) → Since t t
Since-refl t = ([], refl)

pub Since-trans : (t u v : Log) → Since t u → Since u v → Since t v
Since-trans t u v (x, e) (y, f) = (y ++ x, simp append_assoc (f ∙ ap (λ z. y ++ z) e))

-- After a log, errors were written to stderr in this order, with other calls between them.
abbrev pub Logs : List DetailedError → Log → Log → Type 0
Logs [] t u = Since t u
Logs (e ∷ es) t u = (v : Log) × (n : ℕ) × Since t v × Logs es ((Call.log e, done n) ∷ v) u

pub Since-Logs : (es : List DetailedError) (t u v : Log) → Since t u → Logs es u v → Logs es t v
Since-Logs [] t u v a b = Since-trans t u v a b
Since-Logs (e ∷ es) t u v a (w, n, s, rest) = (w, n, Since-trans t u w a s, rest)

pub Logs-Since : (es : List DetailedError) (t u v : Log) → Logs es t u → Since u v → Logs es t v
Logs-Since [] t u v a b = Since-trans t u v a b
Logs-Since (e ∷ es) t u v (w, n, s, rest) b = (w, n, s, Logs-Since es _ u v rest b)

pub Logs-append :
    (es fs : List DetailedError) (t u v : Log) → Logs es t u → Logs fs u v → Logs (es ++ fs) t v
Logs-append [] fs t u v a b = Since-Logs fs t u v a b
Logs-append (e ∷ es) fs t u v (w, n, s, rest) b = (w, n, s, Logs-append es fs _ u v rest b)

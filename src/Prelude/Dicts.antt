-- ===== src/Prelude/Dicts.antt =====
-- A `HashMap` keyed by text, as an association list. The order of its entries means nothing to the
-- program, which only looks keys up and drains the whole map.
use Prim.Native.String.{String}
use mathlib.Core.Path.{◌≡◌, refl, ap}
use mathlib.Core.Logic.{◌≢◌, ◌⊎◌}
use mathlib.Core.Bool.{Bool, true, false}
use mathlib.Core.List.{List, [], ◌∷◌}
use mathlib.Core.Option.{Option, none, some}
use native.Mathlib.Omega.{arith}
use text.Mathlib.Text.{◌==◌ as str_eq}
use text.Mathlib.TextEquality.{eq_iff}
use Prim.Native.Nat.{◌+◌}
use garnd.Prelude.Lists.{length}
use garnd.Prelude.Tests.{if◌then◌else◌}

abbrev pub Dict : Type 0 → Type 0
Dict V = List (String × V)

module _ {V : Type 0} where
  unfoldable pub lookup : String → Dict V → Option V
  lookup k [] = none
  lookup k ((j, v) ∷ m) = if str_eq j k then some v else lookup k m

  unfoldable pub contains_key : String → Dict V → Bool
  unfolding lookup
  contains_key k m = elim (lookup k m) [ none ↦ false | some _ ↦ true ]

  unfoldable pub remove : String → Dict V → Dict V
  remove k [] = []
  remove k ((j, v) ∷ m) = if str_eq j k then remove k m else (j, v) ∷ remove k m

  -- The old entry of the key, if there is one, is replaced.
  unfoldable pub insert : String → V → Dict V → Dict V
  insert k v m = (k, v) ∷ remove k m

  pub lookup-remove_self : (k : String) (m : Dict V) → lookup k (remove k m) ≡ none
  unfolding lookup remove
  lookup-remove_self k [] = refl
  lookup-remove_self k ((j, v) ∷ m) = ground (arith, lookup-remove_self k m)

  pub lookup-remove_ne : (k j : String) (m : Dict V) → k ≢ j → lookup j (remove k m) ≡ lookup j m
  unfolding lookup remove
  lookup-remove_ne k j [] h = refl
  lookup-remove_ne k j ((i, v) ∷ m) h =
      ground (arith, eq_iff i k, eq_iff i j, lookup-remove_ne k j m)

  pub lookup-insert_self : (k : String) (v : V) (m : Dict V) → lookup k (insert k v m) ≡ some v
  unfolding lookup insert
  lookup-insert_self k v m = ground (arith, eq_iff k k)

  pub lookup-insert_ne :
      (k j : String) (v : V) (m : Dict V) → k ≢ j → lookup j (insert k v m) ≡ lookup j m
  unfolding lookup insert
  lookup-insert_ne k j v m h = ground (arith, eq_iff k j, lookup-remove_ne k j m)

  pub remove_missing : (k : String) (m : Dict V) → lookup k m ≡ none → remove k m ≡ m
  unfolding lookup remove
  remove_missing k [] h = refl
  remove_missing k ((j, v) ∷ m) h = ground (arith, remove_missing k m)

  pub contains_key-false : (k : String) (m : Dict V) → contains_key k m ≡ false → lookup k m ≡ none
  unfolding contains_key
  contains_key-false k m h = ground arith

-- No key twice.
abbrev pub Distinct : {V : Type 0} → Dict V → Type 0
Distinct [] = Unit
Distinct ((j, _) ∷ m) = (lookup j m ≡ none) × Distinct m

module _ {V : Type 0} where
  lookup-remove-none :
      (k j : String) (m : Dict V) → lookup j m ≡ none → lookup j (remove k m) ≡ none
  unfolding lookup remove
  lookup-remove-none k j [] h = refl
  lookup-remove-none k j ((i, v) ∷ m) h = ground (arith, lookup-remove-none k j m)

  pub Distinct-remove : (k : String) (m : Dict V) → Distinct m → Distinct (remove k m)
  unfolding remove
  Distinct-remove k [] h = tt
  Distinct-remove k ((j, v) ∷ m) h =
      ground (arith, Distinct-remove k m h.1, lookup-remove-none k j m h.0)

  pub length-remove_found :
      (k : String) (m : Dict V) (v : V)
      → Distinct m
      → lookup k m ≡ some v
      → length (remove k m) + 1 ≡ length m
  unfolding lookup remove
  length-remove_found k [] v h e = cc
  length-remove_found k ((j, w) ∷ m) v h e = ground (
    arith,
    eq_iff j k,
    remove_missing k m,
    ap (λ i. lookup i m),
    length-remove_found k m v h.1,
    h.0,
  )

  pub Distinct-insert : (k : String) (v : V) (m : Dict V) → Distinct m → Distinct (insert k v m)
  unfolding insert
  Distinct-insert k v m h = (lookup-remove_self k m, Distinct-remove k m h)

  pub length-insert_new :
      (k : String) (v : V) (m : Dict V) → lookup k m ≡ none → length (insert k v m) ≡ length m + 1
  unfolding insert
  length-insert_new k v m h = rw (remove_missing k m h) (omega arith)

pub String-cases : (k j : String) → (k ≡ j) ⊎ (k ≢ j)
String-cases k j = ground (arith, eq_iff k j)

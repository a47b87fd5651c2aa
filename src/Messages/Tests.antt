-- ===== src/Messages/Tests.antt =====
-- Messages with numbers printed as marks, a mark for each unit.
use garnd.Prelude.{ℕ, zero, suc, ◌≡◌, refl, ap, ◌++◌, [], All, arith}
use Prim.Native.Char.{code}
use garnd.Prelude.{◌≢◌}
use garnd.Errors.{RuntimeError, resource_too_large_for_page, run_as_wrong_user}
use garnd.Messages.{Text, chars, display}
use garnd.Messages.Unambiguous.{IsDecimal, display-injective}

abbrev marks : ℕ → Text
marks zero = []
marks (suc n) = chars "1" ++ marks n

marks-injective : (m n : ℕ) → marks m ≡ marks n → m ≡ n
marks-injective zero zero p = refl
marks-injective zero (suc n) p = cc p
marks-injective (suc m) zero p = cc p
marks-injective (suc m) (suc n) p = ap suc (marks-injective m n (cc p))

marks_no_comma : (n : ℕ) → All (λ c. code c ≢ b',') (marks n)
marks_no_comma zero = tt
marks_no_comma (suc n) = (omega arith, marks_no_comma n)

marks-IsDecimal : IsDecimal marks
marks-IsDecimal = record { injective = marks-injective; no_comma = marks_no_comma }

display-injective_example :
    ◌≡◌ {A = RuntimeError} (resource_too_large_for_page 3 5) (resource_too_large_for_page 3 5)
display-injective_example =
    display-injective marks marks-IsDecimal (resource_too_large_for_page 3 5)
      (resource_too_large_for_page 3 5) tt tt refl

-- What is printed for the wrong user.
wrong_user :
    display marks run_as_wrong_user
    ≡ chars "service must be run as user 'garnd' (real, effective, saved and file system)"
unfolding display
wrong_user = refl

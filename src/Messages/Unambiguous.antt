-- ===== src/Messages/Unambiguous.antt =====
-- What a message tells: it is that of one error only.
use Prim.Native.Char.{Char, code}
use mathlib.Core.List.{append_cancel_left, append_cancel_right}
use garnd.Prelude.{
  ℕ, ◌+◌, ◌≡◌, refl, sym, ap, ◌∙◌, ◌≢◌, String, [], ◌∷◌, ◌++◌, All, arith, ◌==◌, if◌then◌else◌,
  none, some, Option, get_elem?,
}
use garnd.Errors.{
  RuntimeError, privilege_checks_disabled, user_nonexistent, group_nonexistent, run_as_wrong_user,
  run_as_wrong_group, run_with_root_group, run_with_capabilities, may_obtain_new_privileges,
  secure_bits_not_set, service_already_running, welcome_socket_failed, get_page_size_failed,
  resource_name_already_in_use, resource_alignment_larger_than_page, resource_too_large_for_page,
  resource_type_mismatch,
}
use garnd.Messages.{Text, chars, display}

abbrev code_or_zero : Option Char → ℕ
code_or_zero none = 0
code_or_zero (some c) = code c

-- The characters at three places tell the kind of an error.
abbrev key : Text → ℕ
key s =
    if code_or_zero (get_elem? s 0) == b'a'
    then 0
    else code_or_zero (get_elem? s 15) + code_or_zero (get_elem? s 39)

abbrev number : RuntimeError → ℕ
number privilege_checks_disabled = 224
number user_nonexistent = 117
number group_nonexistent = 103
number run_as_wrong_user = 129
number run_as_wrong_group = 133
number run_with_root_group = 213
number run_with_capabilities = 232
number may_obtain_new_privileges = 137
number secure_bits_not_set = 147
number service_already_running = 212
number welcome_socket_failed = 98
number get_page_size_failed = 214
number (resource_name_already_in_use _) = 0
number (resource_alignment_larger_than_page _ _) = 143
number (resource_too_large_for_page _ _) = 141
number (resource_type_mismatch _ _) = 64

key-display : (show : ℕ → Text) (e : RuntimeError) → key (display show e) ≡ number e
unfolding display
key-display show privilege_checks_disabled = refl
key-display show e = refl

-- How `usize` prints: different numbers differently, and without a comma.
pub record IsDecimal (show : ℕ → Text) : Type 0 where
  pub injective : (m n : ℕ) → show m ≡ show n → m ≡ n
  pub no_comma : (n : ℕ) → All (λ c. code c ≢ b',') (show n)

-- The program knows no name of the resource's type: it always prints the same one.
abbrev pub IsUsual : RuntimeError → Type 0
IsUsual (resource_type_mismatch _ resource_type) = resource_type ≡ "<unavailable at runtime>"
IsUsual _ = Unit

up_to_comma :
    (a b x y : Text) (c : Char)
    → code c ≡ b','
    → All (λ c. code c ≢ b',') a
    → All (λ c. code c ≢ b',') b
    → a ++ (c ∷ x) ≡ b ++ (c ∷ y)
    → (a ≡ b) × (x ≡ y)
up_to_comma [] [] x y c e h k p = (refl, cc p)
up_to_comma [] (d ∷ b) x y c e h k p = absurd (k.0 (cc (p, e)))
up_to_comma (d ∷ a) [] x y c e h k p = absurd (h.0 (cc (p, e)))
up_to_comma (d ∷ a) (f ∷ b) x y c e h k p =
    let (q, r) = up_to_comma a b x y c e h.1 k.1 (cc p) in (cc (q, p), r)

chars-injective : (s t : String) → chars s ≡ chars t → s ≡ t
chars-injective String.[] String.[] p = refl
chars-injective String.[] (String.◌∷◌ d t) p = cc p
chars-injective (String.◌∷◌ c s) String.[] p = cc p
chars-injective (String.◌∷◌ c s) (String.◌∷◌ d t) p =
    let e : s ≡ t = chars-injective s t (cc p) in cc (e, p)

-- The names and numbers of two errors of one kind agree.
abbrev Agree : RuntimeError → RuntimeError → Type 0
Agree (resource_name_already_in_use s) (resource_name_already_in_use t) = s ≡ t
Agree (resource_alignment_larger_than_page m n) (resource_alignment_larger_than_page m' n') =
    (m ≡ m') × (n ≡ n')
Agree (resource_too_large_for_page m n) (resource_too_large_for_page m' n') = (m ≡ m') × (n ≡ n')
Agree (resource_type_mismatch s t) (resource_type_mismatch s' t') = (s ≡ s') × (t ≡ t')
Agree _ _ = Unit

of_one_kind : (e f : RuntimeError) → number e ≡ number f → Agree e f → e ≡ f
of_one_kind privilege_checks_disabled privilege_checks_disabled p h = refl
of_one_kind user_nonexistent user_nonexistent p h = refl
of_one_kind group_nonexistent group_nonexistent p h = refl
of_one_kind run_as_wrong_user run_as_wrong_user p h = refl
of_one_kind run_as_wrong_group run_as_wrong_group p h = refl
of_one_kind run_with_root_group run_with_root_group p h = refl
of_one_kind run_with_capabilities run_with_capabilities p h = refl
of_one_kind may_obtain_new_privileges may_obtain_new_privileges p h = refl
of_one_kind secure_bits_not_set secure_bits_not_set p h = refl
of_one_kind service_already_running service_already_running p h = refl
of_one_kind welcome_socket_failed welcome_socket_failed p h = refl
of_one_kind get_page_size_failed get_page_size_failed p h = refl
of_one_kind (resource_name_already_in_use s) (resource_name_already_in_use t) p h = cc h
of_one_kind (resource_alignment_larger_than_page m n) (resource_alignment_larger_than_page m' n') p
      h =
    cc (h.0, h.1)
of_one_kind (resource_too_large_for_page m n) (resource_too_large_for_page m' n') p h =
    cc (h.0, h.1)
of_one_kind (resource_type_mismatch s t) (resource_type_mismatch s' t') p h = cc (h.0, h.1)
of_one_kind e f p h = absurd (omega (arith, p))

module _ (show : ℕ → Text) (decimal : IsDecimal show) where
  -- Two numbers with a text between them that begins with a comma.
  two_numbers :
      (before between after : Text) (m n m' n' : ℕ) (c : Char)
      → code c ≡ b','
      → before ++ (show m ++ ((c ∷ between) ++ (show n ++ after)))
        ≡ before ++ (show m' ++ ((c ∷ between) ++ (show n' ++ after)))
      → (m ≡ m') × (n ≡ n')
  two_numbers before between after m n m' n' c e p =
      let (q, r) =
        up_to_comma (show m) (show m') _ _ c e (decimal.no_comma m) (decimal.no_comma m')
          (append_cancel_left before _ _ p) in
      (
        decimal.injective m m' q,
        decimal.injective n n'
            (append_cancel_right (show n) (show n') after (append_cancel_left between _ _ r)),
      )

  one_text :
      (before after : Text) (s t : String)
      → before ++ (chars s ++ after) ≡ before ++ (chars t ++ after)
      → s ≡ t
  one_text before after s t p =
      chars-injective s t
        (append_cancel_right (chars s) (chars t) after (append_cancel_left before _ _ p))

  display-Agree :
      (e f : RuntimeError) → IsUsual e → IsUsual f → display show e ≡ display show f → Agree e f
  unfolding display
  display-Agree (resource_name_already_in_use s) (resource_name_already_in_use t) u v p =
      one_text (chars "a resource with the same name (\"") (chars "\") already exists") s t p
  display-Agree (resource_alignment_larger_than_page m n)
        (resource_alignment_larger_than_page m' n') u v p =
      let (q, r) =
        two_numbers
          (chars
            "tried to move a resource into share memory whose alignment is larger than the page size (page size = ")
          (chars " alignment = ") (chars ")") m n m' n' _ refl p in
      (q, r)
  display-Agree (resource_too_large_for_page m n) (resource_too_large_for_page m' n') u v p =
      let (q, r) =
        two_numbers
          (chars
            "tried to move a resource into shared memory which is larger than a whole page (page size = ")
          (chars " resource size = ") (chars ")") m n m' n' _ refl p in
      (q, r)
  display-Agree (resource_type_mismatch s s') (resource_type_mismatch t t') u v p =
      let e : s' ≡ t' = cc (u, v) in
      (
        one_text (chars "tried to access a resource of the wrong type (requested type = ")
            (chars ", resource_type = " ++ (chars t' ++ chars ")")) s t (rw e at p),
        e,
      )
  display-Agree e f u v p = tt

  -- If the standard library prints different numbers differently and without a comma, an error can be
  -- read off its message: errors with the same message are equal, the names and numbers in them
  -- included. For a type mismatch this is so with the one resource type that the allocator reports.
  pub display-injective :
      (e f : RuntimeError) → IsUsual e → IsUsual f → display show e ≡ display show f → e ≡ f
  display-injective e f u v p =
      of_one_kind e f (sym (key-display show e) ∙ ap key p ∙ key-display show f)
        (display-Agree e f u v p)

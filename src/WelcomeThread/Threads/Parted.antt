-- ===== src/WelcomeThread/Threads/Parted.antt =====
-- Which environments are dropped when their threads have announced the end.
use garnd.Prelude.{
  ℕ, subst, Dict, ap, ◌≡◌, refl, ◌∙◌, inl, inr, Bool-cases, true, false, Option, none, some, List,
  [], ◌∷◌, String, String-cases, lookup, remove, lookup-remove_self, lookup-remove_ne, ◌⊎◌,
}
use garnd.Errors.{system}
use garnd.Io.{
  Call, done, failed, Io, pure, send_error, Log, Kernel, Ensures, Ensures-mono, resume-Ensures,
  Reply-cases, ErrorsOpen,
}
use garnd.Environment.{Environment, drop_environment}
use garnd.Environment.Handover.{Ends}
use garnd.Environment.Threads.{drop_environment_log}
use garnd.WelcomeThread.{
  WelcomeThread, Sources, PollFlags, any, close_environment, close_environments, acknowledge,
  environment_shutdown,
}

abbrev pub IsNamed : String → List String → Type 0
IsNamed x [] = ⊥
IsNamed x (name ∷ names) = (name ≡ x) ⊎ IsNamed x names

-- The environments with these names are gone, all others are as they were.
abbrev pub Parted : List String → WelcomeThread → WelcomeThread → Type 0
Parted names w w' =
    (x : String)
    → (IsNamed x names → lookup x w'.environments ≡ none)
      × (¬ (IsNamed x names) → lookup x w'.environments ≡ lookup x w.environments)

-- The environment of one name is dropped, if there is one: its thread is told to end and is joined.
abbrev pub DropsOne : Option Environment → (Log → Type 0) → Log → Type 0
DropsOne none rest t = rest t
DropsOne (some env) rest t =
    (n m : ℕ) × rest
      ((Call.join_thread env.thread, done m) ∷ (Call.eventfd_write env.drop_event, done n) ∷ t)

-- The calls from one log to the other are those of the drops, in the order of the names.
abbrev pub Drops : List String → Dict Environment → Log → Log → Type 0
Drops [] envs t u = u ≡ t
Drops (name ∷ names) envs t u =
    DropsOne (lookup name envs) (λ v. Drops names (remove name envs) v u) t

-- The close event has been read; an error of the read was sent to main.
abbrev pub Acknowledged : ℕ → Log → Log → Type 0
Acknowledged event t u =
    ((n : ℕ) × (u ≡ (Call.eventfd_read event, done n) ∷ t))
    ⊎ ((n m : ℕ) × (u
          ≡ (Call.send_error (system n), done m) ∷ (Call.eventfd_read event, failed n) ∷ t))

DropsOne-then :
    (o : Option Environment) (P : Log → Type 0) (t u : Log)
    → DropsOne o (λ v. u ≡ v) t
    → P u
    → DropsOne o P t
DropsOne-then none P t u e p = subst P e p
DropsOne-then (some env) P t u (n, m, e) p = (n, m, subst P e p)

IsNamed-cases : (x : String) (names : List String) → IsNamed x names ⊎ ¬ (IsNamed x names)
IsNamed-cases x [] = inr (λ n. n)
IsNamed-cases x (name ∷ names) = elim (String-cases name x) [
  | inl e ↦ inl (inl e)
  | inr ne ↦ elim (IsNamed-cases x names) [
    | inl n ↦ inl (inr n)
    | inr absent ↦ inr (λ n. elim n [ inl e ↦ ne e | inr m ↦ absent m ])
  ]
]

Parted-cons :
    (name : String) (names : List String) (w s w' : WelcomeThread)
    → s.environments ≡ remove name w.environments
    → Parted names s w'
    → Parted (name ∷ names) w w'
Parted-cons name names w s w' e rest x = (gone, others)
  where
    gone : IsNamed x (name ∷ names) → lookup x w'.environments ≡ none
    gone h = elim (IsNamed-cases x names) [
      | inl later ↦ (rest x).0 later
      | inr absent ↦ elim h [
        | inl q ↦ (rest x).1 absent ∙ ap (lookup x) e ∙ (rw q (lookup-remove_self x w.environments))
        | inr m ↦ absurd (absent m)
      ]
    ]

    others : ¬ (IsNamed x (name ∷ names)) → lookup x w'.environments ≡ lookup x w.environments
    others h =
        (rest x).1 (λ n. h (inr n))
        ∙ ap (lookup x) e
        ∙ lookup-remove_ne name x w.environments (λ q. h (inl q))

module _ ⦃k : Kernel⦄ (ends : Ends k) where
  close_environment_lem :
      (name : String) (w : WelcomeThread) (t : Log)
      → Ensures {E = ⊥}
          (λ _ w' u.
            (w' ≡ record w { environments = remove name w.environments })
            × DropsOne (lookup name w.environments) (λ v. u ≡ v) t)
          (λ _ _ _. ⊥)
          (close_environment name w t)
  unfolding close_environment
  close_environment_lem name w t = dropped (lookup name w.environments)
    where
      without : WelcomeThread
      without = record w { environments = remove name w.environments }

      dropped :
          (o : Option Environment)
          → Ensures {E = ⊥}
              (λ _ w' u. (w' ≡ without) × DropsOne o (λ v. u ≡ v) t)
              (λ _ _ _. ⊥)
              ((elim o as (λ _. Io WelcomeThread ⊥ (Unit {0})) [
                | none ↦ pure tt
                | some env ↦ drop_environment false env
              ])
                without t)
      dropped none = (refl, refl)
      dropped (some env) =
          Ensures-mono
            (λ _ w' u.
              (w' ≡ without)
              × (n m : ℕ) × (u
                  ≡ (Call.join_thread env.thread, done m)
                    ∷ (Call.eventfd_write env.drop_event, done n)
                    ∷ t))
            (λ _ _ _. ⊥) _ _ (drop_environment false env without t)
            (drop_environment_log ⊥ ends false env without t)
            (λ _ w' u (same, n, m, e). (same, (n, m, e))) (λ _ _ _ x. x)

  close_environments_lem :
      (names : List String) (w : WelcomeThread) (t : Log)
      → w.close_env_rx ≡ names
      → Ensures {E = ⊥}
          (λ _ w' u. Parted names w w' × (w'.close_env_rx ≡ []) × Drops names w.environments t u)
          (λ _ _ _. ⊥)
          (close_environments names w t)
  unfolding close_environments
  close_environments_lem [] w t e = (λ x. ((λ n. absurd n), (λ _. refl)), e, refl)
  close_environments_lem (name ∷ names) w t e =
      resume-Ensures (λ _ s u. (s ≡ next) × DropsOne (lookup name w.environments) (λ v. u ≡ v) t)
        (λ _ _ _. ⊥) _ _ _ _ (close_environment_lem name (record w { close_env_rx = names }) t)
        (λ _ s u (same, dropped). rw same (
          Ensures-mono
            (λ _ w' v.
              Parted names next w' × (w'.close_env_rx ≡ []) × Drops names next.environments u v)
            (λ _ _ _. ⊥) _ _ _ (close_environments_lem names next u refl)
            (λ _ w' v (parted, empty, drops). (
              Parted-cons name names w next w' refl parted,
              empty,
              DropsOne-then (lookup name w.environments)
                  (λ x. Drops names (remove name w.environments) x v) t u dropped drops,
            ))
            (λ _ _ _ x. x)))
        (λ _ _ _ x. x)
    where
      next : WelcomeThread
      next = record { environments = remove name w.environments; close_env_rx = names }

  -- If main holds the error channel and the environments' threads can be told to end and have not
  -- panicked, the close event never makes the welcome thread panic. If it is raised, it is read, and
  -- exactly the environments whose names their threads have sent are dropped, in that order: the calls
  -- since tell each of their threads to end and join it, and there are no others; these names are gone
  -- from the map, all others stay as they were, and the channel of names is empty. If it is not raised,
  -- nothing changes, and nothing is called.
  pub environment_shutdown-Parted :
      (errors : ErrorsOpen k) (src : Sources) (flags : Option PollFlags) (w : WelcomeThread)
      (t : Log)
      → Ensures {E = ⊥}
          (λ _ w' u.
            ((any flags ≡ true)
              × Parted w.close_env_rx w w'
              × (w'.close_env_rx ≡ [])
              × (v : Log) × Acknowledged src.close_env_event t v
              × Drops w.close_env_rx w.environments v u)
            ⊎ ((any flags ≡ false) × (w' ≡ w) × (u ≡ t)))
          (λ _ _ _. ⊥)
          (environment_shutdown src flags w t)
  unfolding environment_shutdown acknowledge send_error
  environment_shutdown-Parted errors src flags w t = elim (Bool-cases (any flags)) [
    | inr quiet ↦ rw quiet (inr (refl, refl, refl))
    | inl raised ↦
        rw raised (elim (Reply-cases (k.answer t (Call.eventfd_read src.close_env_event))) [
          | inl (n, read) ↦ rw read (closed _ (inl (n, refl)))
          | inr (n, lost) ↦
              rw
                (
                  lost,
                  (errors ((Call.eventfd_read src.close_env_event, failed n) ∷ t) (system n)).1,
                )
                (closed _ (inr (n, _, refl)))
        ])
  ]
    where
      closed :
          (v : Log)
          → Acknowledged src.close_env_event t v
          → Ensures {E = ⊥}
              (λ _ w' u.
                ((true ≡ true)
                  × Parted w.close_env_rx w w'
                  × (w'.close_env_rx ≡ [])
                  × (v : Log) × Acknowledged src.close_env_event t v
                  × Drops w.close_env_rx w.environments v u)
                ⊎ ((true ≡ false) × (w' ≡ w) × (u ≡ t)))
              (λ _ _ _. ⊥)
              (close_environments w.close_env_rx w v)
      closed v read =
          Ensures-mono
            (λ _ w' u.
              Parted w.close_env_rx w w'
              × (w'.close_env_rx ≡ [])
              × Drops w.close_env_rx w.environments v u)
            (λ _ _ _. ⊥) _ _ (close_environments w.close_env_rx w v)
            (close_environments_lem w.close_env_rx w v refl)
            (λ _ _ _ (parted, empty, drops). inl (refl, parted, empty, v, read, drops))
            (λ _ _ _ x. x)

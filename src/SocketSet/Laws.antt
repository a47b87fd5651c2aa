-- ===== src/SocketSet/Laws.antt =====
-- The socket set as a set: what `insert` and `remove` change, and which descriptor is closed.
use garnd.Prelude.{
  List, ℕ, ◌≡◌, ◌≢◌, refl, sym, inl, inr, Bool-cases, Bool, true, false, [], ◌∷◌, arith,
  if◌then◌else◌, ◌==◌,
}
use garnd.Io.{
  Call, Reply, done, Log, Kernel, Ensures, Grows, Grows-resume, pure-Grows, ignore-Grows, get-Grows,
  put-Grows, Allows, Carries, Carries-resume, Carries-if, ignore-Carries, pure-Carries, put-Carries,
  get-Carries,
}
use garnd.SocketSet.{SocketSet, contains, insert, erase, remove, close_each, drop_sockets}

-- No descriptor twice, so that none is closed twice.
abbrev pub NoRepetition : SocketSet → Type 0
NoRepetition [] = Unit
NoRepetition (s ∷ ss) = (contains s ss ≡ false) × NoRepetition ss

pub erase-contains_ne :
    (fd x : ℕ) (ss : SocketSet) → x ≢ fd → contains x (erase fd ss) ≡ contains x ss
unfolding erase contains
erase-contains_ne fd x [] ne = refl
erase-contains_ne fd x (s ∷ ss) ne = ground (arith, erase-contains_ne fd x ss ne)

erase-contains_self :
    (fd : ℕ) (ss : SocketSet) → NoRepetition ss → contains fd (erase fd ss) ≡ false
unfolding erase contains
erase-contains_self fd [] h = refl
erase-contains_self fd (s ∷ ss) h = ground (arith, erase-contains_self fd ss h.1, h.0)

erase-NoRepetition : (fd : ℕ) (ss : SocketSet) → NoRepetition ss → NoRepetition (erase fd ss)
unfolding erase contains
erase-NoRepetition fd [] h = tt
erase-NoRepetition fd (s ∷ ss) h =
    ground (arith, erase-NoRepetition fd ss h.1, h.0, erase-contains_ne fd s ss)

-- The descriptor is in the set afterwards, the others are as before, and none is there twice.
pub insert-NoRepetition : (fd : ℕ) (ss : SocketSet) → NoRepetition ss → NoRepetition (insert fd ss)
unfolding insert
insert-NoRepetition fd ss h = ground (arith, h)

-- What `remove` leaves: the set without the descriptor, which was closed if it was there.
pub record Removed (fd : ℕ) (ss : SocketSet) (t : Log) (was : Bool) (ss' : SocketSet) (u : Log)
    : Type 0 where
  pub was_there : was ≡ contains fd ss
  pub gone : contains fd ss' ≡ false
  pub others : (x : ℕ) → x ≢ fd → contains x ss' ≡ contains x ss
  pub no_repetition : NoRepetition ss'
  pub answer : Reply ℕ
  pub closed : u ≡ (if was then (Call.close fd, answer) ∷ t else t)

-- On a set without repetition, `remove` always returns: it tells whether the descriptor was in the
-- set, takes it out, leaves all others, and closes it once if it was there and not at all otherwise.
pub remove-Removed :
    ⦃k : Kernel⦄ (E : Type 0) (fd : ℕ) (ss : SocketSet) (t : Log)
    → NoRepetition ss
    → Ensures {E = E} (Removed fd ss t) (λ _ _ _. ⊥) (remove fd ss t)
unfolding remove
remove-Removed E fd ss t h = elim (Bool-cases (contains fd ss)) [
  | inl there ↦ rw there (record {
    was_there = sym there;
    gone = erase-contains_self fd ss h;
    others = λ x ne. erase-contains_ne fd x ss ne;
    no_repetition = erase-NoRepetition fd ss h;
    answer = _;
    closed = refl;
  })
  | inr missing ↦ rw missing (record {
    was_there = sym missing;
    gone = missing;
    others = λ x ne. refl;
    no_repetition = h;
    answer = done 0;
    closed = refl;
  })
]

pub remove-returns :
    ⦃k : Kernel⦄ (E : Type 0) (fd : ℕ) (ss : SocketSet) (t : Log)
    → Ensures {E = E} (λ _ _ _. Unit {0}) (λ _ _ _. ⊥) (remove fd ss t)
unfolding remove
remove-returns E fd ss t = elim (Bool-cases (contains fd ss)) [
  | inl there ↦ rw there tt
  | inr missing ↦ rw missing tt
]

-- The destructor closes sockets only.
pub insert-contains_self : (fd : ℕ) (ss : SocketSet) → contains fd (insert fd ss) ≡ true
unfolding insert contains
insert-contains_self fd ss = ground arith

pub insert-contains_keeps :
    (fd x : ℕ) (ss : SocketSet) → contains x ss ≡ true → contains x (insert fd ss) ≡ true
unfolding insert contains
insert-contains_keeps fd x ss h = ground arith

pub contains_nothing : (fd : ℕ) → contains fd [] ≡ false
unfolding contains
contains_nothing fd = refl

pub contains_rest :
    (fd x : ℕ) (ss : SocketSet)
    → contains x (fd ∷ ss) ≡ true
    → (fd == x) ≡ false
    → contains x ss ≡ true
unfolding contains
contains_rest fd x ss h other = ground (arith, h, other)

module _ ⦃k : Kernel⦄ (E : Type 0) where
  close_each_quiet :
      (fds : List ℕ) (s : SocketSet) (t : Log)
      → Ensures {E = E} (λ _ _ _. Unit {0}) (λ _ _ _. ⊥) (close_each fds s t)
  unfolding close_each
  close_each_quiet [] s t = tt
  close_each_quiet (fd ∷ fds) s t = close_each_quiet fds s _

  pub remove-Carries :
      (R : SocketSet → Log → Type 0) (fd : ℕ)
      → ((ss ss' : SocketSet) (t : Log) → R ss t → R ss' t)
      → Allows R (Call.close fd)
      → Carries {E = E} R (remove fd)
  unfolding remove
  remove-Carries R fd any allows = Carries-resume R _ _ (get-Carries R) (λ ss.
      Carries-if R (contains fd ss) _ _
        (Carries-resume R _ _ (put-Carries R (erase fd ss) (λ s t p. any s (erase fd ss) t p)) (λ _.
          Carries-resume R _ _ (ignore-Carries R (Call.close fd) allows)
            (λ _. pure-Carries R true)))
        (pure-Carries R false))

  -- What `remove` does where the descriptor is in the set.
  pub remove-Carries_closing :
      (R : SocketSet → Log → Type 0) (fd : ℕ)
      → ((ss : SocketSet) (t : Log) (r : Reply ℕ)
          → R ss t
          → R (erase fd ss) ((Call.close fd, r) ∷ t))
      → Carries {E = E} R (remove fd)
  unfolding remove
  remove-Carries_closing R fd closes = record {
    carries = λ ss t p. elim (Bool-cases (contains fd ss)) [
      | inl there ↦ rw there (closes ss t (k.answer t (Call.close fd)) p)
      | inr missing ↦ rw missing p
    ];
  }

  -- What closing all descriptors leads to, where each call may be the next to close one.
  close_each_leads :
      (R : SocketSet → Log → Type 0)
      → ((fd : ℕ) (fds : SocketSet) (t : Log) (r : Reply ℕ)
          → R (fd ∷ fds) t
          → R fds ((Call.close fd, r) ∷ t))
      → (fds : List ℕ) (ss : SocketSet) (t : Log) → R fds t
      → R [] (close_each {E = E} fds ss t).2
  unfolding close_each
  close_each_leads R closes [] ss t p = p
  close_each_leads R closes (fd ∷ fds) ss t p =
      close_each_leads R closes fds ss _ (closes fd fds t (k.answer t (Call.close fd)) p)

  pub drop_sockets_leads :
      (R : SocketSet → Log → Type 0)
      → ((fd : ℕ) (fds : SocketSet) (t : Log) (r : Reply ℕ)
          → R (fd ∷ fds) t
          → R fds ((Call.close fd, r) ∷ t))
      → (ss : SocketSet) (t : Log) → R ss t
      → R [] (drop_sockets {E = E} ss t).2
  unfolding drop_sockets
  drop_sockets_leads R closes ss t p = close_each_leads R closes ss [] t p

  close_each-Grows : (fds : List ℕ) → Grows {E = E} (close_each fds)
  unfolding close_each
  close_each-Grows [] = pure-Grows tt
  close_each-Grows (fd ∷ fds) = Grows-resume _ _ (ignore-Grows _) (λ _. close_each-Grows fds)

  pub drop_sockets_quiet :
      (s : SocketSet) (t : Log)
      → Ensures {E = E} (λ _ _ _. Unit {0}) (λ _ _ _. ⊥) (drop_sockets s t)
  unfolding drop_sockets
  drop_sockets_quiet s t = close_each_quiet s [] t

  pub drop_sockets-Grows : Grows {E = E} drop_sockets
  unfolding drop_sockets
  drop_sockets-Grows =
      Grows-resume _ _ get-Grows (λ ss. Grows-resume _ _ (put-Grows []) (λ _. close_each-Grows ss))

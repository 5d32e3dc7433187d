-- ===== src/Timer/TimerSet/Laws.antt =====
-- The laws of an ordered set of timers.
use co_lib.Prelude.{
  ℕ, ◌≡◌, refl, subst, List, [], ◌∷◌, Bool, true, false, not, ◌&&◌, ◌||◌, ◌==◌, if◌then◌else◌,
  arith, Bool-cases, inl, inr,
}
use co_lib.Timer.TimerSet.{less, insert, found, erase}

abbrev pub contains : ℕ → List ℕ → Bool
contains j [] = false
contains j (x ∷ xs) = x == j || contains j xs

module _ (next : ℕ → ℕ) where
  abbrev pub AllAfter : ℕ → List ℕ → Type 0
  AllAfter x [] = Unit
  AllAfter x (y ∷ ys) = (less next x y ≡ true) × AllAfter x ys

  abbrev pub Sorted : List ℕ → Type 0
  Sorted [] = Unit
  Sorted (x ∷ xs) = AllAfter x xs × Sorted xs

  pub less_trans : (a b c : ℕ) → less next a b ≡ true → less next b c ≡ true → less next a c ≡ true
  less_trans a b c p q = ground arith

  less_asym : (a b : ℕ) → less next a b ≡ true → less next b a ≡ false
  less_asym a b p = ground arith

  pub less_connex : (a b : ℕ) → less next a b ≡ false → less next b a ≡ false → a ≡ b
  less_connex a b p q = ground arith

  pub less_irrefl : (a : ℕ) → less next a a ≡ false
  less_irrefl a = ground arith

  pub AllAfter-trans :
      (a b : ℕ) (xs : List ℕ) → less next a b ≡ true → AllAfter b xs → AllAfter a xs
  AllAfter-trans a b [] h k = tt
  AllAfter-trans a b (x ∷ xs) h k = (less_trans a b x h k.0, AllAfter-trans a b xs h k.1)

  -- What comes behind `x` in the order is not `x`, nor before it.
  pub AllAfter-contains :
      (a x : ℕ) (xs : List ℕ) → less next a x ≡ true → AllAfter x xs → contains a xs ≡ false
  AllAfter-contains a x [] h k = refl
  AllAfter-contains a x (y ∷ ys) h k =
      ground (arith, AllAfter-contains a x ys h k.1, less_trans a x y h k.0, less_irrefl y)

  pub contains-insert :
      (j id : ℕ) (xs : List ℕ) → contains j (insert next id xs) ≡ (id == j || contains j xs)
  unfolding insert
  contains-insert j id [] = refl
  contains-insert j id (x ∷ xs) = ground (arith, contains-insert j id xs, less_connex x id)

  -- A new element comes first exactly if it is before the one that came first.
  pub insert_first :
      (id x : ℕ) (xs : List ℕ)
      → contains id (x ∷ xs) ≡ false
      → insert next id (x ∷ xs) ≡ (if less next id x then id ∷ x ∷ xs else x ∷ insert next id xs)
  unfolding insert
  insert_first id x xs h = ground (arith, less_connex x id)

  pub insert_nil : (id : ℕ) → insert next id [] ≡ id ∷ []
  unfolding insert
  insert_nil id = refl

  AllAfter-insert :
      (a id : ℕ) (xs : List ℕ)
      → less next a id ≡ true
      → AllAfter a xs
      → AllAfter a (insert next id xs)
  unfolding insert
  AllAfter-insert a id [] h k = (h, tt)
  AllAfter-insert a id (x ∷ xs) h k = ground (arith, AllAfter-insert a id xs h k.1)

  pub Sorted-insert : (id : ℕ) (xs : List ℕ) → Sorted xs → Sorted (insert next id xs)
  unfolding insert
  Sorted-insert id [] h = (tt, tt)
  Sorted-insert id (x ∷ xs) h =
      ground (arith, Sorted-insert id xs h.1, AllAfter-insert x id xs, AllAfter-trans id x xs)

  pub found_lem : (id : ℕ) (xs : List ℕ) → Sorted xs → found next id xs ≡ contains id xs
  unfolding found
  found_lem id [] h = refl
  found_lem id (x ∷ xs) h =
      ground
        (arith, found_lem id xs h.1, less_connex x id, AllAfter-contains id x xs, less_irrefl x)

  AllAfter-erase : (a id : ℕ) (xs : List ℕ) → AllAfter a xs → AllAfter a (erase next id xs)
  unfolding erase
  AllAfter-erase a id [] h = tt
  AllAfter-erase a id (x ∷ xs) h = ground (arith, AllAfter-erase a id xs h.1)

  pub Sorted-erase : (id : ℕ) (xs : List ℕ) → Sorted xs → Sorted (erase next id xs)
  unfolding erase
  Sorted-erase id [] h = tt
  Sorted-erase id (x ∷ xs) h = ground (arith, Sorted-erase id xs h.1, AllAfter-erase x id xs h.0)

  pub AllAfter-self : (x : ℕ) (xs : List ℕ) → AllAfter x xs → contains x xs ≡ false
  AllAfter-self x [] h = refl
  AllAfter-self x (y ∷ ys) h = ground (arith, AllAfter-self x ys h.1, less_irrefl x)

  -- Taking an element from the front of the set takes all of it.
  contains-tail :
      (j x : ℕ) (xs : List ℕ)
      → AllAfter x xs
      → contains j xs ≡ (not (x == j) && contains j (x ∷ xs))
  contains-tail j x xs h = elim (Bool-cases (x == j)) [
    | inl e ↦
        let e' : x ≡ j = ground arith in
        rw e (subst (λ k. contains k xs ≡ false) e' (AllAfter-self x xs h))
    | inr e ↦ rw e
  ]

  pub contains-erase :
      (j id : ℕ) (xs : List ℕ)
      → Sorted xs
      → contains j (erase next id xs) ≡ (not (id == j) && contains j xs)
  unfolding erase
  contains-erase j id [] h = ground arith
  contains-erase j id (x ∷ xs) h = elim (Bool-cases (less next x id)) [
    | inl before ↦ rw before (ground (arith, contains-erase j id xs h.1, less_irrefl x))
    | inr e ↦ elim (Bool-cases (less next id x)) [
      | inl behind ↦ ground (arith, AllAfter-contains id x xs behind h.0, less_irrefl x)
      | inr e' ↦
          rw (e, e')
            (subst (λ k. contains j xs ≡ (not (k == j) && contains j (x ∷ xs)))
              (less_connex x id e e') (contains-tail j x xs h.0))
    ]
  ]

-- The order of a set may be read through another function that agrees on its elements.
pub Sorted-agree :
    (next next' : ℕ → ℕ) (xs : List ℕ)
    → ((j : ℕ) → contains j xs ≡ true → next' j ≡ next j)
    → Sorted next xs
    → Sorted next' xs
Sorted-agree next next' [] agree h = tt
Sorted-agree next next' (x ∷ xs) agree h = (
  after x xs (agree x (ground arith)) (λ j p. agree j (ground arith)) h.0,
  Sorted-agree next next' xs (λ j p. agree j (ground arith)) h.1,
)
  where
    after :
        (a : ℕ) (ys : List ℕ)
        → next' a ≡ next a
        → ((j : ℕ) → contains j ys ≡ true → next' j ≡ next j)
        → AllAfter next a ys
        → AllAfter next' a ys
    after a [] e f k = tt
    after a (y ∷ ys) e f k =
        (rw (e, f y (ground arith)) k.0, after a ys e (λ j p. f j (ground arith)) k.1)

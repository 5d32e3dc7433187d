-- ===== src/Prelude/Lists.antt =====
-- Lists measured and indexed by the native numbers, under the library's names.
use Prim.Native.Nat.{ℕ, zero, suc, ◌+◌, ◌-◌, ◌≤◌, ◌<◌, min}
use mathlib.Core.Path.{◌≡◌, refl, ap}
use mathlib.Core.Logic.{◌≢◌, ◌⊎◌, inl, inr}
use mathlib.Core.List.{List, [], ◌∷◌, ◌++◌}
use mathlib.Core.Option.{Option, none, some, some-injective}
use native.Mathlib.Omega.{arith}

module _ {ℓ} {A : Type ℓ} where
  abbrev pub length : List A → ℕ
  length [] = 0
  length (x ∷ xs) = suc (length xs)

  abbrev pub get_elem? : List A → ℕ → Option A
  get_elem? [] i = none
  get_elem? (x ∷ xs) zero = some x
  get_elem? (x ∷ xs) (suc i) = get_elem? xs i

  -- A write out of bounds changes nothing.
  abbrev pub set : List A → ℕ → A → List A
  set [] i v = []
  set (x ∷ xs) zero v = v ∷ xs
  set (x ∷ xs) (suc i) v = x ∷ set xs i v

  abbrev pub take : ℕ → List A → List A
  take zero xs = []
  take (suc n) [] = []
  take (suc n) (x ∷ xs) = x ∷ take n xs

  abbrev pub drop : ℕ → List A → List A
  drop zero xs = xs
  drop (suc n) [] = []
  drop (suc n) (x ∷ xs) = drop n xs

  abbrev pub replicate : ℕ → A → List A
  replicate zero a = []
  replicate (suc n) a = a ∷ replicate n a

  pub length-append : (xs ys : List A) → length (xs ++ ys) ≡ length xs + length ys
  length-append [] ys = omega arith
  length-append (x ∷ xs) ys = omega (arith, length-append xs ys)

  pub length-replicate : (n : ℕ) (a : A) → length (replicate n a) ≡ n
  length-replicate zero a = refl
  length-replicate (suc n) a = ap suc (length-replicate n a)

  pub length-take : (n : ℕ) (xs : List A) → length (take n xs) ≡ min n (length xs)
  length-take zero xs = omega arith
  length-take (suc n) [] = omega arith
  length-take (suc n) (x ∷ xs) = omega (arith, length-take n xs)

  pub length-drop : (n : ℕ) (xs : List A) → length (drop n xs) ≡ length xs - n
  length-drop zero xs = omega arith
  length-drop (suc n) [] = omega arith
  length-drop (suc n) (x ∷ xs) = omega (arith, length-drop n xs)

  pub length-set : (xs : List A) (i : ℕ) (v : A) → length (set xs i v) ≡ length xs
  length-set [] i v = refl
  length-set (x ∷ xs) zero v = refl
  length-set (x ∷ xs) (suc i) v = ap suc (length-set xs i v)

  -- The first `n + m` elements are the first `n` and then `m` more.
  pub take-split :
      (k n m : ℕ) (xs : List A) → k ≡ n + m → take k xs ≡ take n xs ++ take m (drop n xs)
  take-split k zero m xs e = ap (λ j. take j xs) (omega arith)
  take-split zero (suc n) m xs e = absurd (omega arith)
  take-split (suc k) (suc n) zero [] e = refl
  take-split (suc k) (suc n) (suc m) [] e = refl
  take-split (suc k) (suc n) m (x ∷ xs) e = ap (λ r. x ∷ r) (take-split k n m xs (omega arith))

  pub drop-drop : (k n m : ℕ) (xs : List A) → k ≡ n + m → drop m (drop n xs) ≡ drop k xs
  drop-drop k zero m xs e = ap (λ j. drop j xs) (omega arith)
  drop-drop zero (suc n) m xs e = absurd (omega arith)
  drop-drop (suc k) (suc n) zero [] e = refl
  drop-drop (suc k) (suc n) (suc m) [] e = refl
  drop-drop (suc k) (suc n) m (x ∷ xs) e = drop-drop k n m xs (omega arith)

  pub drop-take : (k n m : ℕ) (xs : List A) → k ≡ n + m → drop n (take k xs) ≡ take m (drop n xs)
  drop-take k zero m xs e = ap (λ j. take j xs) (omega arith)
  drop-take zero (suc n) m xs e = absurd (omega arith)
  drop-take (suc k) (suc n) zero [] e = refl
  drop-take (suc k) (suc n) (suc m) [] e = refl
  drop-take (suc k) (suc n) m (x ∷ xs) e = drop-take k n m xs (omega arith)

  pub take-all : (n : ℕ) (xs : List A) → length xs ≤ n → take n xs ≡ xs
  take-all zero [] h = refl
  take-all zero (x ∷ xs) h = absurd (omega arith)
  take-all (suc n) [] h = refl
  take-all (suc n) (x ∷ xs) h = ap (λ r. x ∷ r) (take-all n xs (omega arith))

  pub take-append_left : (n : ℕ) (xs ys : List A) → n ≤ length xs → take n (xs ++ ys) ≡ take n xs
  take-append_left zero xs ys h = refl
  take-append_left (suc n) [] ys h = absurd (omega arith)
  take-append_left (suc n) (x ∷ xs) ys h = ap (λ r. x ∷ r) (take-append_left n xs ys (omega arith))

  pub take-append_right :
      (k n : ℕ) (xs ys : List A) → k ≡ length xs + n → take k (xs ++ ys) ≡ xs ++ take n ys
  take-append_right k n [] ys e = ap (λ j. take j ys) (omega arith)
  take-append_right zero n (x ∷ xs) ys e = absurd (omega arith)
  take-append_right (suc k) n (x ∷ xs) ys e =
      ap (λ r. x ∷ r) (take-append_right k n xs ys (omega arith))

  pub drop-append_left :
      (n : ℕ) (xs ys : List A) → n ≤ length xs → drop n (xs ++ ys) ≡ drop n xs ++ ys
  drop-append_left zero xs ys h = refl
  drop-append_left (suc n) [] ys h = absurd (omega arith)
  drop-append_left (suc n) (x ∷ xs) ys h = drop-append_left n xs ys (omega arith)

  pub drop-append_right :
      (k n : ℕ) (xs ys : List A) → k ≡ length xs + n → drop k (xs ++ ys) ≡ drop n ys
  drop-append_right k n [] ys e = ap (λ j. drop j ys) (omega arith)
  drop-append_right zero n (x ∷ xs) ys e = absurd (omega arith)
  drop-append_right (suc k) n (x ∷ xs) ys e = drop-append_right k n xs ys (omega arith)

  pub take-take : (n k : ℕ) (xs : List A) → n ≤ k → take n (take k xs) ≡ take n xs
  take-take zero k xs h = refl
  take-take (suc n) zero xs h = absurd (omega arith)
  take-take (suc n) (suc k) [] h = refl
  take-take (suc n) (suc k) (x ∷ xs) h = ap (λ r. x ∷ r) (take-take n k xs (omega arith))

  pub drop-all : (n : ℕ) (xs : List A) → length xs ≤ n → drop n xs ≡ []
  drop-all zero [] h = refl
  drop-all zero (x ∷ xs) h = absurd (omega arith)
  drop-all (suc n) [] h = refl
  drop-all (suc n) (x ∷ xs) h = drop-all n xs (omega arith)

  pub get-append :
      (xs ys : List A) (i : ℕ) (a : A) → get_elem? xs i ≡ some a → get_elem? (xs ++ ys) i ≡ some a
  get-append [] ys i a h = absurd (cc)
  get-append (x ∷ xs) ys zero a h = h
  get-append (x ∷ xs) ys (suc i) a h = get-append xs ys i a h

  pub get-set_same :
      (xs : List A) (i : ℕ) (a v : A) → get_elem? xs i ≡ some a → get_elem? (set xs i v) i ≡ some v
  get-set_same [] i a v h = absurd (cc)
  get-set_same (x ∷ xs) zero a v h = refl
  get-set_same (x ∷ xs) (suc i) a v h = get-set_same xs i a v h

  pub get-set_other :
      (xs : List A) (i j : ℕ) (v : A) → i ≢ j → get_elem? (set xs i v) j ≡ get_elem? xs j
  get-set_other [] i j v h = refl
  get-set_other (x ∷ xs) zero zero v h = absurd (h refl)
  get-set_other (x ∷ xs) zero (suc j) v h = refl
  get-set_other (x ∷ xs) (suc i) zero v h = refl
  get-set_other (x ∷ xs) (suc i) (suc j) v h = get-set_other xs i j v (λ e. h (omega arith))

  pub get-some : (xs : List A) (i : ℕ) → i < length xs → (a : A) × (get_elem? xs i ≡ some a)
  get-some [] i h = absurd (omega arith)
  get-some (x ∷ xs) zero h = (x, refl)
  get-some (x ∷ xs) (suc i) h = get-some xs i (omega arith)

  pub get-none : (xs : List A) (i : ℕ) → length xs ≤ i → get_elem? xs i ≡ none
  get-none [] i h = refl
  get-none (x ∷ xs) zero h = absurd (omega arith)
  get-none (x ∷ xs) (suc i) h = get-none xs i (omega arith)

  pub get-lt : (xs : List A) (i : ℕ) (a : A) → get_elem? xs i ≡ some a → i < length xs
  get-lt [] i a h = absurd (cc)
  get-lt (x ∷ xs) zero a h = omega arith
  get-lt (x ∷ xs) (suc i) a h = omega (arith, get-lt xs i a h)

  pub get-set_cases :
      (xs : List A) (i j : ℕ) (v a : A)
      → get_elem? (set xs i v) j ≡ some a
      → ((i ≡ j) × (v ≡ a)) ⊎ (get_elem? xs j ≡ some a)
  get-set_cases [] i j v a h = inr h
  get-set_cases (x ∷ xs) zero zero v a h = inl (refl, some-injective _ _ h)
  get-set_cases (x ∷ xs) zero (suc j) v a h = inr h
  get-set_cases (x ∷ xs) (suc i) zero v a h = inr h
  get-set_cases (x ∷ xs) (suc i) (suc j) v a h = elim (get-set_cases xs i j v a h) [
    | inl (e, e') ↦ inl (omega arith, e')
    | inr e ↦ inr e
  ]

  pub get-snoc_cases :
      (xs : List A) (v : A) (j : ℕ) (a : A)
      → get_elem? (xs ++ (v ∷ [])) j ≡ some a
      → ((j ≡ length xs) × (v ≡ a)) ⊎ (get_elem? xs j ≡ some a)
  get-snoc_cases [] v zero a h = inl (refl, some-injective _ _ h)
  get-snoc_cases [] v (suc j) a h = inr h
  get-snoc_cases (x ∷ xs) v zero a h = inr h
  get-snoc_cases (x ∷ xs) v (suc j) a h = elim (get-snoc_cases xs v j a h) [
    | inl (e, e') ↦ inl (omega arith, e')
    | inr e ↦ inr e
  ]

  pub List-cases : (xs : List A) → (xs ≡ []) ⊎ ((y : A) × (ys : List A) × (xs ≡ y ∷ ys))
  List-cases [] = inl refl
  List-cases (x ∷ xs) = inr (x, xs, refl)

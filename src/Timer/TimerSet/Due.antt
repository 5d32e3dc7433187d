-- ===== src/Timer/TimerSet/Due.antt =====
-- The timers that `listExpiredCb` of src/timer.cc takes: those that are due.
use co_lib.Prelude.{
  ℕ, ◌≡◌, ◌≤◌, ◌<◌, refl, ap, inl, inr, List, [], ◌∷◌, ◌++◌, true, ◌&&◌, ltb, leb, ◌==◌,
  if◌then◌else◌, arith, Bool-cases,
}
use co_lib.Timer.TimerSet.{less, take_before, drop_before, take_at, drop_at}
use co_lib.Timer.TimerSet.Laws.{contains, AllAfter, Sorted}

module _ (next : ℕ → ℕ) (now : ℕ) where
  -- The timers whose time has come, and the others, in the order of the set.
  abbrev pub due : List ℕ → List ℕ
  due [] = []
  due (x ∷ xs) = if leb (next x) now then x ∷ due xs else due xs

  abbrev pub later : List ℕ → List ℕ
  later [] = []
  later (x ∷ xs) = if leb (next x) now then later xs else x ∷ later xs

  pub contains-due :
      (j : ℕ) (xs : List ℕ) → contains j (due xs) ≡ (contains j xs && leb (next j) now)
  contains-due j [] = refl
  contains-due j (x ∷ xs) = elim (Bool-cases (x == j)) [
    | inl e ↦ let e' : x ≡ j = ground arith in ground (arith, contains-due j xs, ap next e')
    | inr e ↦ ground (arith, contains-due j xs)
  ]

  pub contains-later :
      (j : ℕ) (xs : List ℕ) → contains j (later xs) ≡ (contains j xs && ltb now (next j))
  contains-later j [] = refl
  contains-later j (x ∷ xs) = elim (Bool-cases (x == j)) [
    | inl e ↦ let e' : x ≡ j = ground arith in ground (arith, contains-later j xs, ap next e')
    | inr e ↦ ground (arith, contains-later j xs)
  ]

  AllAfter-due : (a : ℕ) (xs : List ℕ) → AllAfter next a xs → AllAfter next a (due xs)
  AllAfter-due a [] k = tt
  AllAfter-due a (x ∷ xs) k = ground (arith, AllAfter-due a xs k.1)

  pub Sorted-due : (xs : List ℕ) → Sorted next xs → Sorted next (due xs)
  Sorted-due [] s = tt
  Sorted-due (x ∷ xs) s = ground (arith, Sorted-due xs s.1, AllAfter-due x xs s.0)

  AllAfter-later : (a : ℕ) (xs : List ℕ) → AllAfter next a xs → AllAfter next a (later xs)
  AllAfter-later a [] k = tt
  AllAfter-later a (x ∷ xs) k = ground (arith, AllAfter-later a xs k.1)

  pub Sorted-later : (xs : List ℕ) → Sorted next xs → Sorted next (later xs)
  Sorted-later [] s = tt
  Sorted-later (x ∷ xs) s = ground (arith, Sorted-later xs s.1, AllAfter-later x xs s.0)

  -- Behind a timer that is not due, none is.
  none_due :
      (a : ℕ) (xs : List ℕ) → now < next a → AllAfter next a xs → (due xs ≡ []) × (later xs ≡ xs)
  none_due a [] h k = (refl, refl)
  none_due a (x ∷ xs) h k = ground (arith, none_due a xs h k.1)

  pub early_due :
      (x : ℕ) (xs : List ℕ)
      → now < next x
      → Sorted next (x ∷ xs)
      → (due (x ∷ xs) ≡ []) × (later (x ∷ xs) ≡ x ∷ xs)
  early_due x xs h s = ground (arith, none_due x xs h s.0)

  AllFrom : List ℕ → Type 0
  AllFrom [] = Unit
  AllFrom (x ∷ xs) = (now ≤ next x) × AllFrom xs

  AllFrom-AllAfter : (a : ℕ) (xs : List ℕ) → now ≤ next a → AllAfter next a xs → AllFrom xs
  unfolding AllFrom
  AllFrom-AllAfter a [] h k = tt
  AllFrom-AllAfter a (x ∷ xs) h k = (ground arith, AllFrom-AllAfter a xs h k.1)

  -- The loop over the timers of this very millisecond stops at the first that is not due.
  at_due :
      (xs : List ℕ)
      → Sorted next xs
      → AllFrom xs
      → (take_at next now xs ≡ due xs) × (drop_at next now xs ≡ later xs)
  unfolding take_at drop_at AllFrom
  at_due [] s f = (refl, refl)
  at_due (x ∷ xs) s f = elim (Bool-cases (next x == now)) [
    | inl e ↦ ground (arith, at_due xs s.1 f.1)
    | inr e ↦ ground (arith, none_due x xs (ground arith) s.0)
  ]

  -- `now_timer` is the local timer whose time is now.
  pub split_due :
      (now_timer : ℕ) (xs : List ℕ)
      → next now_timer ≡ now
      → Sorted next xs
      → let from = drop_before next now_timer xs in
        (take_before next now_timer xs ++ take_at next now from ≡ due xs)
        × (drop_at next now from ≡ later xs)
  unfolding take_before drop_before AllFrom
  split_due now_timer [] e s = at_due [] tt tt
  split_due now_timer (x ∷ xs) e s = elim (Bool-cases (less next x now_timer)) [
    | inl before ↦ rw before (ground (arith, split_due now_timer xs e s.1))
    | inr behind ↦
        let from : now ≤ next x = ground arith in
        rw behind (at_due (x ∷ xs) s (from, AllFrom-AllAfter x xs from s.0))
  ]

-- The same timers are due by another order that agrees on them.
pub due-agree :
    (next next' : ℕ → ℕ) (now : ℕ) (xs : List ℕ)
    → ((j : ℕ) → contains j xs ≡ true → next' j ≡ next j)
    → (due next' now xs ≡ due next now xs) × (later next' now xs ≡ later next now xs)
due-agree next next' now [] agree = (refl, refl)
due-agree next next' now (x ∷ xs) agree =
    let (d, l) = due-agree next next' now xs (λ j h. agree j (ground arith)) in
    let e = agree x (ground arith) in (rw (e, d), rw (e, l))

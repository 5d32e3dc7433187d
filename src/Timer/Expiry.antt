-- ===== src/Timer/Expiry.antt =====
-- `listExpiredCb` of src/timer.cc: which callbacks it returns, and which timers it leaves.
use co_lib.Prelude.{
  ℕ, ◌≡◌, refl, sym, ◌∙◌, ap, subst, inl, inr, List, [], ◌∷◌, ◌++◌, Option, none, Bool, true, false,
  not, ◌&&◌, ◌||◌, ltb, leb, ◌==◌, if◌then◌else◌, arith, Bool-cases,
}
use co_lib.Timer.{
  Callback, Timer, TimerManager, next_of, update, collect, expire, expired_timers, is_early,
  list_expired_cb, detect_clock_rollover,
}
use co_lib.Timer.TimerSet.{take_before, drop_before, take_at, drop_at}
use co_lib.Timer.TimerSet.Laws.{contains, Sorted, Sorted-agree}
use co_lib.Timer.TimerSet.Due.{
  due, later, contains-due, contains-later, Sorted-due, Sorted-later, split_due, due-agree,
  early_due,
}
use co_lib.Timer.Invariant.{armed, IsValid}
use co_lib.Timer.Collect.{callbacks, Collecting, collect-Collected, NoDup, Sorted-NoDup}

-- The timers that a call takes: all of them after a rollover of the clock, and otherwise those due.
abbrev pub taken : Bool → ℕ → TimerManager → List ℕ
taken rollover now m = if rollover then m.timers else due (next_of m.heap) now m.timers

record Split (rollover : Bool) (now : ℕ) (m : TimerManager) (split : List ℕ × List ℕ) : Type 0 where
  first : split.0 ≡ taken rollover now m
  second : split.1 ≡ (if rollover then [] else later (next_of m.heap) now m.timers)

expired_timers-Split :
    (rollover : Bool) (now now_timer : ℕ) (m : TimerManager)
    → Sorted (next_of m.heap) m.timers
    → contains now_timer m.timers ≡ false
    → Split rollover now m (expired_timers rollover now now_timer m)
unfolding expired_timers
expired_timers-Split true now now_timer m s out = record { first = refl; second = refl }
expired_timers-Split false now now_timer m s out = record {
  first = split.0 ∙ agreed.0;
  second = split.1 ∙ agreed.1;
}
  where
    local : Timer
    local = record { recurring = false; ms = 0; next = now; cb = none }

    next : ℕ → ℕ
    next = next_of (update m.heap now_timer local)

    agree : (j : ℕ) → contains j m.timers ≡ true → next j ≡ next_of m.heap j
    agree j h = elim (Bool-cases (j == now_timer)) [
      | inl e ↦
          let e' : j ≡ now_timer = ground arith in
          let there : contains now_timer m.timers ≡ true =
            subst (λ k. contains k m.timers ≡ true) e' h in
          absurd (ground arith)
      | inr e ↦ ground arith
    ]

    agreed :
        (due next now m.timers ≡ due (next_of m.heap) now m.timers)
        × (later next now m.timers ≡ later (next_of m.heap) now m.timers)
    agreed = due-agree (next_of m.heap) next now m.timers agree

    split :
        let from = drop_before next now_timer m.timers in
        (take_before next now_timer m.timers ++ take_at next now from ≡ due next now m.timers)
        × (drop_at next now from ≡ later next now m.timers)
    split =
        split_due next now now_timer m.timers (ground arith)
          (Sorted-agree (next_of m.heap) next m.timers agree s)

-- What a call does, `rollover` telling whether the clock was set back.
pub record Expired (rollover : Bool) (now : ℕ) (m : TimerManager)
    (result : List (Option Callback) × TimerManager) : Type 0 where
  pub cbs : result.0 ≡ callbacks m.heap (taken rollover now m)
  pub kept :
      (j : ℕ)
      → contains j result.1.timers ≡ (
          contains j m.timers
          && ((m.heap j).recurring || not (rollover || leb (next_of m.heap j) now)))
  pub valid : IsValid result.1

taken-Collecting :
    (rollover : Bool) (now : ℕ) (m : TimerManager)
    → IsValid m
    → Collecting
        (taken rollover now m)
        (record m { timers = if rollover then [] else later (next_of m.heap) now m.timers })
taken-Collecting true now m v = record { sorted = tt; in_set = λ j. v.in_set j; apart = λ j. refl }
taken-Collecting false now m v = record {
  sorted = Sorted-later (next_of m.heap) now m.timers v.sorted;
  in_set = λ j.
      rw
        (
          contains-later (next_of m.heap) now j m.timers,
          contains-due (next_of m.heap) now j m.timers,
        )
        (ground (arith, v.in_set j));
  apart = λ j.
      rw
        (
          contains-later (next_of m.heap) now j m.timers,
          contains-due (next_of m.heap) now j m.timers,
        )
        (ground arith);
}

taken-NoDup :
    (rollover : Bool) (now : ℕ) (m : TimerManager) → IsValid m → NoDup (taken rollover now m)
taken-NoDup true now m v = Sorted-NoDup (next_of m.heap) m.timers v.sorted
taken-NoDup false now m v =
    Sorted-NoDup (next_of m.heap) _ (Sorted-due (next_of m.heap) now m.timers v.sorted)

nothing_due :
    (next : ℕ → ℕ) (now : ℕ) (ts : List ℕ)
    → Sorted next ts
    → (elim ts [ [] ↦ true | id ∷ rest ↦ ltb now (next id) ]) ≡ true
    → due next now ts ≡ []
nothing_due next now [] s h = refl
nothing_due next now (x ∷ ts) s h = (early_due next now x ts (ground arith) s).0

nothing-Expired :
    (now : ℕ) (m : TimerManager)
    → IsValid m
    → due (next_of m.heap) now m.timers ≡ []
    → Expired false now m ([], m)
nothing-Expired now m v h = record {
  cbs = rw h;
  kept = λ j. ground (arith, contains-due (next_of m.heap) now j m.timers, ap (contains j) h);
  valid = v;
}

collect-Expired :
    (rollover : Bool) (now : ℕ) (m : TimerManager)
    → IsValid m
    → Expired rollover now m (
        collect now
          (taken rollover now m)
          (record m { timers = if rollover then [] else later (next_of m.heap) now m.timers }))
collect-Expired rollover now m v =
    let d =
      collect-Collected now (taken rollover now m) _ (taken-NoDup rollover now m v)
        (taken-Collecting rollover now m v) in
    record { cbs = d.cbs; kept = λ j. d.kept j ∙ kept_lem rollover j; valid = d.valid }
  where
    kept_lem :
        (r : Bool) (j : ℕ)
        → (contains j (if r then [] else later (next_of m.heap) now m.timers)
            || (contains j (taken r now m) && (m.heap j).recurring))
          ≡ (contains j m.timers && ((m.heap j).recurring || not (r || leb (next_of m.heap j) now)))
    kept_lem true j = ground arith
    kept_lem false j =
        rw
          (
            contains-later (next_of m.heap) now j m.timers,
            contains-due (next_of m.heap) now j m.timers,
          )
          (ground arith)

expire-Expired :
    (rollover : Bool) (now now_timer : ℕ) (m : TimerManager)
    → IsValid m
    → contains now_timer m.timers ≡ false
    → Expired rollover now m (expire rollover now now_timer m)
unfolding expire
expire-Expired true now now_timer m v out =
    let s = expired_timers-Split true now now_timer m v.sorted out in
    rw (s.first, s.second) (collect-Expired true now m v)
expire-Expired false now now_timer m v out = elim (Bool-cases (is_early now m)) [
  | inl e ↦ rw e (nothing-Expired now m v (nothing_due (next_of m.heap) now m.timers v.sorted e))
  | inr e ↦
      let s = expired_timers-Split false now now_timer m v.sorted out in
      rw (e, s.first, s.second) (collect-Expired false now m v)
]

by_first {ℓ κ} :
    {R : Type ℓ} (P : R → Type κ) (ts : List ℕ) (x y : R)
    → (ts ≡ [] → P x)
    → P y
    → P (elim ts [ [] ↦ x | id ∷ rest ↦ y ])
by_first P [] x y p q = p refl
by_first P (t ∷ ts) x y p q = q

-- `listExpiredCb` of a valid manager returns, in the order of the set, the callbacks of exactly the
-- timers that are due, or of all timers where it finds that the clock was set back; afterwards the
-- set holds the recurring ones of these and all that were not taken, and the manager is valid. The
-- address of its local timer is not in the set.
pub list_expired_cb-takes :
    (now now_timer : ℕ) (m : TimerManager)
    → IsValid m
    → armed now_timer m ≡ false
    → Expired (detect_clock_rollover now m).0 now m (list_expired_cb now now_timer m)
unfolding list_expired_cb detect_clock_rollover
list_expired_cb-takes now now_timer m v out =
    by_first (Expired rollover now m) m.timers ([], m) (expire rollover now now_timer m') none_set
      some_set
  where
    rollover : Bool
    rollover = (detect_clock_rollover now m).0

    m' : TimerManager
    m' = (detect_clock_rollover now m).1

    none_set : m.timers ≡ [] → Expired rollover now m ([], m)
    none_set e = record {
      cbs = sym (ap (callbacks m.heap) (nothing_taken rollover e));
      kept = λ j. rw (ap (contains j) e);
      valid = v;
    }
      where
        nothing_taken : (r : Bool) → m.timers ≡ [] → taken r now m ≡ []
        nothing_taken true h = h
        nothing_taken false h = rw h

    some_set : Expired rollover now m (expire rollover now now_timer m')
    some_set =
        let d =
          expire-Expired rollover now now_timer m' (record { sorted = v.sorted; in_set = v.in_set })
            (v.in_set now_timer ∙ out) in
        record { cbs = d.cbs; kept = d.kept; valid = d.valid }

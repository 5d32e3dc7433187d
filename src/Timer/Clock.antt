-- ===== src/Timer/Clock.antt =====
-- The clock in src/timer.cc: how long `getNextTimer` says to wait, what `detectClockRollover` takes
-- for a clock that was set back, and when `addTimer` notifies.
use co_lib.Prelude.{
  ℕ, ◌+◌, ◌-◌, ◌*◌, ◌≡◌, ◌≢◌, ◌∙◌, ◌≤◌, ◌<◌, ◌↔◌, ◌⊎◌, refl, ap, subst, inl, inr, List, [], ◌∷◌,
  some, Bool, true, false, ◌==◌, arith, Bool-cases, add_word, word_mod,
}
use co_lib.Timer.{
  Callback, Timer, TimerManager, next_of, update, no_timer, wait_for, get_next_timer,
  detect_clock_rollover, add_timer, insert_timer, is_first,
}
use co_lib.Timer.TimerSet.{less, insert}
use co_lib.Timer.TimerSet.Laws.{
  contains, AllAfter, Sorted, AllAfter-trans, insert_first, insert_nil,
}
use co_lib.Timer.Invariant.{armed, IsValid, Sorted-update}

-- What the callers of `getNextTimer` rely on: `r` is the time to the earliest timer of the set.
abbrev pub IsWait : (ℕ → Timer) → ℕ → List ℕ → ℕ → Type 0
IsWait heap now ts r =
    (ts ≡ [] → r ≡ no_timer)
    × ((j : ℕ) → contains j ts ≡ true → r ≤ next_of heap j - now)
    × (ts ≢ [] → (j : ℕ) × (contains j ts ≡ true) × (r ≡ next_of heap j - now))

AllAfter-le :
    (heap : ℕ → Timer) (x j : ℕ) (ts : List ℕ)
    → AllAfter (next_of heap) x ts
    → contains j ts ≡ true
    → next_of heap x ≤ next_of heap j
AllAfter-le heap x j [] a h = absurd (ground arith)
AllAfter-le heap x j (y ∷ ts) a h = elim (Bool-cases (y == j)) [
  | inl e ↦ let e' : y ≡ j = ground arith in ground (arith, ap (next_of heap) e')
  | inr e ↦ AllAfter-le heap x j ts a.1 (ground arith)
]

wait_for-IsWait :
    (heap : ℕ → Timer) (now : ℕ) (ts : List ℕ)
    → Sorted (next_of heap) ts
    → ((j : ℕ) → next_of heap j < word_mod)
    → IsWait heap now ts (wait_for heap now ts)
unfolding wait_for
wait_for-IsWait heap now [] s b =
    ((λ h. refl), (λ j h. absurd (ground arith)), (λ h. absurd (h refl)))
wait_for-IsWait heap now (x ∷ ts) s b = (
  (λ h. cc),
  (λ j h. elim (Bool-cases (x == j)) [
    | inl e ↦ let e' : x ≡ j = ground arith in ground (arith, ap (next_of heap) e', b x)
    | inr e ↦ ground (arith, AllAfter-le heap x j ts s.0 (ground arith), b x)
  ]),
  (λ h. (x, ground arith, ground (arith, b x))),
)

-- `getNextTimer` of a valid manager returns ~0 where there is no timer, and otherwise the time to
-- the earliest timer, 0 if that is due; it clears the mark that a notification was sent.
pub get_next_timer-IsWait :
    (now : ℕ) (m : TimerManager)
    → IsValid m
    → ((j : ℕ) → next_of m.heap j < word_mod)
    → IsWait m.heap now m.timers (get_next_timer now m).0
      × ((get_next_timer now m).1.tickled ≡ false)
unfolding get_next_timer
get_next_timer-IsWait now m v b = (wait_for-IsWait m.heap now m.timers v.sorted b, refl)

-- `detectClockRollover` takes the clock for set back exactly if it shows an earlier time than at
-- the last call and, moreover, more than an hour less, or the last call was within the first hour
-- of the clock, when the subtraction wraps. It remembers the time.
pub detect_clock_rollover_iff :
    (now : ℕ) (m : TimerManager)
    → m.previous_time < word_mod
    → (((detect_clock_rollover now m).0 ≡ true) ↔ (
        (now < m.previous_time)
        × ((now + 60 * 60 * 1000 < m.previous_time) ⊎ (m.previous_time < 60 * 60 * 1000))))
      × ((detect_clock_rollover now m).1.previous_time ≡ now)
unfolding detect_clock_rollover
detect_clock_rollover_iff now m b = (((λ h. ground arith), (λ h. ground arith)), refl)

-- The timer `id`, not yet in the set, comes first in it.
abbrev pub IsEarliest : (ℕ → ℕ) → ℕ → List ℕ → Type 0
IsEarliest next id ts = (j : ℕ) → contains j ts ≡ true → less next id j ≡ true

AllAfter-IsEarliest :
    (next : ℕ → ℕ) (id j : ℕ) (ts : List ℕ)
    → AllAfter next id ts
    → contains j ts ≡ true
    → less next id j ≡ true
AllAfter-IsEarliest next id j [] a h = absurd (ground arith)
AllAfter-IsEarliest next id j (y ∷ ts) a h = elim (Bool-cases (y == j)) [
  | inl e ↦ let e' : y ≡ j = ground arith in subst (λ k. less next id k ≡ true) e' a.0
  | inr e ↦ AllAfter-IsEarliest next id j ts a.1 (ground arith)
]

is_first-insert :
    (next : ℕ → ℕ) (id : ℕ) (ts : List ℕ)
    → Sorted next ts
    → contains id ts ≡ false
    → (is_first id (insert next id ts) ≡ true) ↔ IsEarliest next id ts
is_first-insert next id [] s out =
    ((λ h j p. absurd (ground arith)), (λ h. rw (insert_nil next id) (ground arith)))
is_first-insert next id (x ∷ ts) s out = (
  (λ h j p. elim (Bool-cases (less next id x)) [
    | inl e ↦ AllAfter-IsEarliest next id j (x ∷ ts) (e, AllAfter-trans next id x ts e s.0) p
    | inr e ↦ absurd (ground (arith, insert_first next id x ts out))
  ]),
  (λ h. ground (arith, insert_first next id x ts out, h x (ground arith))),
)

-- `addTimer` of a new timer calls `onTimerInsertedAtFront` once if the timer is now the earliest of
-- the set and no notification is outstanding, and otherwise not at all; a notification is then
-- outstanding until the next `getNextTimer`.
pub add_timer-notifies :
    (now id ms : ℕ) (cb : Callback) (recurring : Bool) (m : TimerManager)
    → armed id m ≡ false
    → IsValid m
    → let m' = add_timer now id ms (some cb) recurring m in
      let first = IsEarliest (next_of m'.heap) id m.timers in
      (first → m.tickled ≡ false → (m'.notified ≡ m.notified + 1) × (m'.tickled ≡ true))
      × (¬ first ⊎ (m.tickled ≡ true) → (m'.notified ≡ m.notified) × (m'.tickled ≡ m.tickled))
unfolding add_timer insert_timer
add_timer-notifies now id ms cb recurring m out v = (
  (λ f t. ground (arith, front.1 f)),
  (λ n. elim n [ inl f ↦ rw (no_front f) (refl, refl) | inr t ↦ ground arith ]),
)
  where
    timer : Timer
    timer = record { recurring = recurring; ms = ms; next = add_word now ms; cb = some cb }

    heap : ℕ → Timer
    heap = update m.heap id timer

    absent : contains id m.timers ≡ false
    absent = v.in_set id ∙ out

    front :
        (is_first id (insert (next_of heap) id m.timers) ≡ true)
        ↔ IsEarliest (next_of heap) id m.timers
    front =
        is_first-insert (next_of heap) id m.timers
          (Sorted-update m.heap id timer m.timers absent v.sorted) absent

    no_front :
        ¬ IsEarliest (next_of heap) id m.timers
        → is_first id (insert (next_of heap) id m.timers) ≡ false
    no_front f = elim (Bool-cases (is_first id (insert (next_of heap) id m.timers))) [
      | inl e ↦ absurd (f (front.0 e))
      | inr e ↦ e
    ]

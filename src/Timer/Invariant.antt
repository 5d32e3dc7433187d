-- ===== src/Timer/Invariant.antt =====
-- The invariant of `TimerManager`, and its methods that put in or take out one timer.
use mathlib.Core.Path.{fun_ext}
use co_lib.Prelude.{
  ℕ, ◌≡◌, refl, ◌∙◌, ap, subst, inl, inr, List, some, none, Bool, true, false, not, ◌&&◌, ◌||◌,
  ◌==◌, if◌then◌else◌, add_word, arith, Bool-cases,
}
use co_lib.Timer.{
  Callback, Timer, TimerManager, is_some, next_of, update, create, returning, insert_timer,
  add_timer, erase_found, cancel,
}
use co_lib.Timer.TimerSet.{found, erase}
use co_lib.Timer.TimerSet.Laws.{
  contains, Sorted, contains-insert, Sorted-insert, found_lem, Sorted-erase, contains-erase,
  Sorted-agree,
}

-- A timer has a callback as long as it is in the set.
abbrev pub armed : ℕ → TimerManager → Bool
armed id m = is_some (m.heap id).cb

pub record IsValid (m : TimerManager) : Type 0 where
  pub sorted : Sorted (next_of m.heap) m.timers
  pub in_set : (id : ℕ) → contains id m.timers ≡ armed id m

update_at :
    (heap : ℕ → Timer) (id j : ℕ) (t : Timer) → update heap id t j ≡ (if id == j then t else heap j)
update_at heap id j t = ground arith

-- A timer that is not in the set may change.
pub Sorted-update :
    (heap : ℕ → Timer) (id : ℕ) (t : Timer) (xs : List ℕ)
    → contains id xs ≡ false
    → Sorted (next_of heap) xs
    → Sorted (next_of (update heap id t)) xs
Sorted-update heap id t xs out = Sorted-agree (next_of heap) (next_of (update heap id t)) xs (λ j h.
    elim (Bool-cases (j == id)) [
      | inl e ↦
          let e' : j ≡ id = ground arith in
          let there : contains id xs ≡ true = subst (λ k. contains k xs ≡ true) e' h in
          absurd (ground arith)
      | inr e ↦ ground arith
    ])

pub insert_timer-IsValid :
    (id : ℕ) (m : TimerManager)
    → Sorted (next_of m.heap) m.timers
    → ((j : ℕ) → (id == j || contains j m.timers) ≡ armed j m)
    → IsValid (insert_timer id m)
unfolding insert_timer
insert_timer-IsValid id m s h = record {
  sorted = Sorted-insert (next_of m.heap) id m.timers s;
  in_set = λ j. contains-insert (next_of m.heap) j id m.timers ∙ h j;
}

pub create-IsValid :
    (now : ℕ) (heap : ℕ → Timer) → ((id : ℕ) → (heap id).cb ≡ none) → IsValid (create now heap)
unfolding create
create-IsValid now heap h = record { sorted = tt; in_set = λ id. rw (h id) }

-- `addTimer` with a callback, for a new timer at an address that no armed timer has: afterwards the
-- set has just the new timer besides those that it had, the timer at this address is the new one, due
-- `ms` after now, all other timers are as before, and the manager is valid.
pub add_timer-IsValid :
    (now id ms : ℕ) (cb : Callback) (recurring : Bool) (m : TimerManager)
    → armed id m ≡ false
    → IsValid m
    → let m' = add_timer now id ms (some cb) recurring m in
      ((j : ℕ) → contains j m'.timers ≡ (id == j || contains j m.timers))
      × ((j : ℕ)
          → m'.heap j ≡ (
              if id == j
              then record { recurring = recurring; ms = ms; next = add_word now ms; cb = some cb }
              else m.heap j))
      × IsValid m'
unfolding add_timer insert_timer
add_timer-IsValid now id ms cb recurring m out v = (
  (λ j. contains-insert _ j id m.timers),
  (λ j. update_at m.heap id j _),
  insert_timer-IsValid id _ (Sorted-update m.heap id _ m.timers (v.in_set id ∙ out) v.sorted)
      (λ j. ground (arith, v.in_set j)),
)

-- Taking an armed timer out.
pub erase_timer-Sorted :
    (id : ℕ) (t : Timer) (m : TimerManager)
    → IsValid m
    → Sorted (next_of (update m.heap id t)) (erase (next_of m.heap) id m.timers)
erase_timer-Sorted id t m v =
    Sorted-update m.heap id t (erase (next_of m.heap) id m.timers)
      (contains-erase (next_of m.heap) id id m.timers v.sorted ∙ ground arith)
      (Sorted-erase (next_of m.heap) id m.timers v.sorted)

-- A change that keeps `m_next` does not change the order.
next_of-update :
    (heap : ℕ → Timer) (id : ℕ) (t : Timer)
    → t.next ≡ next_of heap id
    → next_of (update heap id t) ≡ next_of heap
next_of-update heap id t e = fun_ext (λ j. elim (Bool-cases (j == id)) [
  | inl h ↦ let h' : j ≡ id = ground arith in ground (arith, ap (next_of heap) h')
  | inr h ↦ ground arith
])

erase_found_lem :
    (id : ℕ) (m : TimerManager) (next : ℕ → ℕ)
    → next_of m.heap ≡ next
    → found next id m.timers ≡ true
    → erase_found id m ≡ some (record m { timers = erase next id m.timers })
erase_found_lem id m next e =
    subst
      (λ k.
        found k id m.timers ≡ true
        → erase_found id m ≡ some (record m { timers = erase k id m.timers }))
      e (λ h. rw h)

-- The state in which `cancel` leaves the manager.
cancelled : ℕ → TimerManager → TimerManager
cancelled id m = record m {
  heap = update m.heap id (record (m.heap id) { cb = none });
  timers = erase (next_of m.heap) id m.timers;
}

cancelled-IsValid : (id : ℕ) (m : TimerManager) → IsValid m → IsValid (cancelled id m)
unfolding cancelled
cancelled-IsValid id m v = record {
  sorted = erase_timer-Sorted id _ m v;
  in_set = λ j. contains-erase (next_of m.heap) j id m.timers v.sorted ∙ ground (arith, v.in_set j);
}

-- `cancel` of a valid manager never erases the end of the set; it returns whether the timer was
-- armed, and afterwards exactly that timer is no longer in the set, and the manager is valid.
pub cancel_lem :
    (id : ℕ) (m : TimerManager)
    → IsValid m
    → (m' : TimerManager) × (cancel id m ≡ some (armed id m, m'))
      × ((j : ℕ) → contains j m'.timers ≡ (not (id == j) && contains j m.timers))
      × IsValid m'
unfolding cancel cancelled
cancel_lem id m v = elim (Bool-cases (armed id m)) [
  | inl yes_armed ↦ (
    cancelled id m,
    rw yes_armed (
        ap returning (
          erase_found_lem id _ (next_of m.heap)
            (next_of-update m.heap id (record (m.heap id) { cb = none }) refl)
            (found_lem (next_of m.heap) id m.timers v.sorted ∙ v.in_set id ∙ yes_armed))),
    (λ j. contains-erase (next_of m.heap) j id m.timers v.sorted),
    cancelled-IsValid id m v,
  )
  | inr not_armed ↦ (m, rw not_armed, (λ j. ground (arith, v.in_set j, v.in_set id)), v)
]

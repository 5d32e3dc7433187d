-- ===== src/Timer/Restart.antt =====
-- `Timer::refresh` and `Timer::reset` of src/timer.cc: a timer is taken out of the set before its
-- time changes, and put in again.
use co_lib.Prelude.{
  ℕ, ◌≡◌, refl, ◌∙◌, inl, inr, some, Bool, true, not, ◌&&◌, ◌||◌, ◌==◌, if◌then◌else◌, arith,
  Bool-cases, add_word, sub_word,
}
use co_lib.Timer.{Timer, TimerManager, is_some, next_of, update, insert_timer, refresh, reset}
use co_lib.Timer.TimerSet.{insert, erase}
use co_lib.Timer.TimerSet.Laws.{contains, contains-insert, Sorted-insert, found_lem, contains-erase}
use co_lib.Timer.Invariant.{armed, IsValid, erase_timer-Sorted, insert_timer-IsValid}

-- The manager with the timer `id` out of the set and changed to `t`.
abbrev taken_out : ℕ → Timer → TimerManager → TimerManager
taken_out id t m = record m {
  heap = update m.heap id t;
  timers = erase (next_of m.heap) id m.timers;
}

module _ (id : ℕ) (m : TimerManager) (v : IsValid m) (t : Timer) (on : is_some t.cb ≡ true) where
  back_in_set :
      armed id m ≡ true
      → (j : ℕ) → (id == j || contains j (taken_out id t m).timers) ≡ armed j (taken_out id t m)
  back_in_set h j =
      rw (contains-erase (next_of m.heap) j id m.timers v.sorted) (ground (arith, v.in_set j, on))

  same_set :
      armed id m ≡ true
      → (j : ℕ) → (id == j || contains j (taken_out id t m).timers) ≡ contains j m.timers
  same_set h j =
      rw (contains-erase (next_of m.heap) j id m.timers v.sorted)
        (ground (arith, v.in_set j, v.in_set id, h))

abbrev restarted : ℕ → Timer → TimerManager → TimerManager
restarted id t m = record m {
  heap = update m.heap id t;
  timers = insert (next_of (update m.heap id t)) id (erase (next_of m.heap) id m.timers);
}

-- `refresh` of a valid manager returns whether the timer was armed; the same timers stay in the
-- set, an armed timer is due its period from now, and the manager is valid.
pub refresh_lem :
    (now id : ℕ) (m : TimerManager)
    → IsValid m
    → (m' : TimerManager) × (refresh now id m ≡ some (armed id m, m'))
      × ((j : ℕ) → contains j m'.timers ≡ contains j m.timers)
      × (next_of m'.heap id
          ≡ (if armed id m then add_word now (m.heap id).ms else next_of m.heap id))
      × IsValid m'
unfolding refresh
refresh_lem now id m v = elim (Bool-cases (armed id m)) [
  | inl on ↦
      let t : Timer = record (m.heap id) { next = add_word now (m.heap id).ms } in
      (
        restarted id t m,
        rw (on, found_lem (next_of m.heap) id m.timers v.sorted, v.in_set id, on),
        (λ j. contains-insert (next_of (update m.heap id t)) j id _ ∙ same_set id m v t on on j),
        rw on (ground arith),
        record {
          sorted = Sorted-insert _ id _ (erase_timer-Sorted id t m v);
          in_set = λ j.
              contains-insert (next_of (update m.heap id t)) j id _ ∙ back_in_set id m v t on on j;
        },
      )
  | inr off ↦ (m, rw off, (λ j. refl), rw off, v)
]

-- The start that `reset` counts from.
abbrev start_of : ℕ → ℕ → Bool → TimerManager → ℕ
start_of now id from_now m = if from_now then now else sub_word (next_of m.heap id) (m.heap id).ms

-- `reset` of a valid manager with another period, or from now on, returns whether the timer was
-- armed; the same timers stay in the set, an armed timer has the new period, counted from now or
-- from its old start, and the manager is valid. With the old period and the old start `reset`
-- returns true and changes nothing.
pub reset_lem :
    (now id ms : ℕ) (from_now : Bool) (m : TimerManager)
    → IsValid m
    → (m' : TimerManager) × (reset now id ms from_now m
        ≡ some ((ms == (m.heap id).ms && not from_now) || armed id m, m'))
      × ((j : ℕ) → contains j m'.timers ≡ contains j m.timers)
      × (next_of m'.heap id ≡ (
          if ms == (m.heap id).ms && not from_now
          then next_of m.heap id
          else if armed id m
          then add_word (start_of now id from_now m) ms
          else next_of m.heap id))
      × IsValid m'
unfolding reset
reset_lem now id ms from_now m v = elim (Bool-cases (ms == (m.heap id).ms && not from_now)) [
  | inl same ↦ (m, rw same, (λ j. refl), rw same, v)
  | inr other ↦ elim (Bool-cases (armed id m)) [
    | inl on ↦
        let t : Timer = record (m.heap id) {
          ms = ms;
          next = add_word (start_of now id from_now m) ms;
        } in
        (
          insert_timer id (taken_out id t m),
          rw (other, on, found_lem (next_of m.heap) id m.timers v.sorted, v.in_set id, on),
          (λ j. contains-insert (next_of (update m.heap id t)) j id _ ∙ same_set id m v t on on j),
          rw (other, on) (ground arith),
          insert_timer-IsValid id (taken_out id t m) (erase_timer-Sorted id t m v)
              (back_in_set id m v t on on),
        )
    | inr off ↦ (m, rw (other, off), (λ j. refl), rw (other, off), v)
  ]
]

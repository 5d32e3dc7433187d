-- ===== src/Timer/Tests.antt =====
-- Runs of src/timer.cc with two timers, and the theorems at that state.
use co_lib.Prelude.{
  ℕ, ◌≡◌, ◌*◌, ◌<◌, ◌+◌, ◌↔◌, ◌⊎◌, refl, [], ◌∷◌, some, none, true, false, not, ◌&&◌, ◌||◌,
  if◌then◌else◌, arith, ◌==◌,
}
use co_lib.Timer.{
  call, on_timer, Timer, TimerManager, create, next_of, update, add_timer, cancel, refresh, reset,
  get_next_timer, detect_clock_rollover, list_expired_cb, invoke,
}
use co_lib.Timer.TimerSet.{insert, take_before, drop_before, take_at, drop_at}
use co_lib.Timer.TimerSet.Laws.{contains}
use co_lib.Timer.Invariant.{IsValid, create-IsValid, add_timer-IsValid, cancel_lem}
use co_lib.Timer.Restart.{refresh_lem, reset_lem}
use co_lib.Timer.Expiry.{Expired, list_expired_cb-takes}
use co_lib.Timer.Clock.{
  IsWait, get_next_timer-IsWait, detect_clock_rollover_iff, IsEarliest, add_timer-notifies,
}
use co_lib.Timer.History.{here, then_call, Steps, step, adds, expires, Reach-Steps}

abbrev unused : Timer
unused = record { recurring = false; ms = 0; next = 0; cb = none }

abbrev recurring_timer : Timer
recurring_timer = record { recurring = true; ms = 50; next = 1050; cb = some (call 1) }

abbrev single_timer : Timer
single_timer = record { recurring = false; ms = 20; next = 1020; cb = some (call 2) }

-- Timer 8 recurs every 50 ms, timer 9 runs once after 20 ms.
abbrev two_timers : TimerManager
two_timers = record {
  heap = update (update (λ id. unused) 8 recurring_timer) 9 single_timer;
  timers = 9 ∷ 8 ∷ [];
  tickled = false;
  previous_time = 1000;
  notified = 2;
}

two_timers-IsValid : IsValid two_timers
two_timers-IsValid = record { sorted = ((refl, tt), (tt, tt)); in_set = λ id. ground arith }

two_timers-made :
    add_timer 1000 9 20
      (some (call 2))
      false
      (add_timer 1000 8 50 (some (call 1)) true (create 1000 (λ id. unused)))
    ≡ record two_timers { tickled = true; notified = 1 }
unfolding add_timer create insert
two_timers-made = refl

-- Both are due at 1050; the recurring timer is in the set again.
expires_both : (list_expired_cb 1050 7 two_timers).0 ≡ some (call 2) ∷ some (call 1) ∷ []
unfolding list_expired_cb insert take_before drop_before take_at drop_at
expires_both = refl

guarded_call : invoke (λ weak_cond. false) (on_timer 3 4) ≡ none
unfolding invoke
guarded_call = refl

create-IsValid_test : IsValid (create 1000 (λ id. unused))
create-IsValid_test = create-IsValid 1000 (λ id. unused) (λ id. refl)

add_timer-IsValid_example :
    let m = add_timer 1000 10 30 (some (call 3)) false two_timers in
    ((j : ℕ) → contains j m.timers ≡ (10 == j || contains j (9 ∷ 8 ∷ [])))
    × ((j : ℕ)
        → m.heap j ≡ (
            if 10 == j
            then record { recurring = false; ms = 30; next = 1030; cb = some (call 3) }
            else two_timers.heap j))
    × IsValid m
add_timer-IsValid_example =
    add_timer-IsValid 1000 10 30 (call 3) false two_timers refl two_timers-IsValid

cancel_lem_example :
    (m : TimerManager) × (cancel 8 two_timers ≡ some (true, m))
    × ((j : ℕ) → contains j m.timers ≡ (not (8 == j) && contains j (9 ∷ 8 ∷ [])))
    × IsValid m
cancel_lem_example = cancel_lem 8 two_timers two_timers-IsValid

refresh_lem_test :
    (m : TimerManager) × (refresh 1010 9 two_timers ≡ some (true, m))
    × ((j : ℕ) → contains j m.timers ≡ contains j (9 ∷ 8 ∷ []))
    × (next_of m.heap 9 ≡ 1030)
    × IsValid m
refresh_lem_test = refresh_lem 1010 9 two_timers two_timers-IsValid

reset_lem_test :
    (m : TimerManager) × (reset 1010 9 70 false two_timers ≡ some (true, m))
    × ((j : ℕ) → contains j m.timers ≡ contains j (9 ∷ 8 ∷ []))
    × (next_of m.heap 9 ≡ 1070)
    × IsValid m
reset_lem_test = reset_lem 1010 9 70 false two_timers two_timers-IsValid

list_expired_cb-takes_example :
    Expired
      (detect_clock_rollover 1020 two_timers).0
      1020
      two_timers
      (list_expired_cb 1020 7 two_timers)
list_expired_cb-takes_example = list_expired_cb-takes 1020 7 two_timers two_timers-IsValid refl

get_next_timer-IsWait_example :
    IsWait two_timers.heap 1010 (9 ∷ 8 ∷ []) (get_next_timer 1010 two_timers).0
    × ((get_next_timer 1010 two_timers).1.tickled ≡ false)
get_next_timer-IsWait_example =
    get_next_timer-IsWait 1010 two_timers two_timers-IsValid (λ j. ground arith)

detect_clock_rollover_iff_example :
    (((detect_clock_rollover 900 two_timers).0 ≡ true)
      ↔ ((900 < 1000) × ((900 + 60 * 60 * 1000 < 1000) ⊎ (1000 < 60 * 60 * 1000))))
    × ((detect_clock_rollover 900 two_timers).1.previous_time ≡ 900)
detect_clock_rollover_iff_example = detect_clock_rollover_iff 900 two_timers (omega arith)

add_timer-notifies_example :
    let m = add_timer 1000 10 5 (some (call 3)) false two_timers in
    let first = IsEarliest (next_of m.heap) 10 (9 ∷ 8 ∷ []) in
    (first → false ≡ false → (m.notified ≡ 3) × (m.tickled ≡ true))
    × (¬ first ⊎ (false ≡ true) → (m.notified ≡ 2) × (m.tickled ≡ false))
add_timer-notifies_example =
    add_timer-notifies 1000 10 5 (call 3) false two_timers refl two_timers-IsValid

Reach-Steps_example :
    Steps (expires 1100 7) (add_timer 1000 9 20 (some (call 2)) false (create 1000 (λ id. unused)))
unfolding create add_timer insert step
Reach-Steps_example =
    Reach-Steps 1000 (λ id. unused) _ (expires 1100 7) (λ id. refl)
      (then_call (adds 1000 9 20 (call 2) false) here refl refl) refl

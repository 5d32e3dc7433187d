-- ===== src/Timer.antt =====
-- src/timer.cc and include/timer.h: timers and their manager. A timer is known by its address; what
-- `GetCurrentMS` returns is an argument. A call holds the manager's lock from end to end (only
-- `listExpiredCb` looks at the queue once more after it changed from the read to the write lock).
-- `none` stands for `erase` of the end of the set, which has no defined behaviour.
mod TimerSet
pub mod Invariant
pub mod Restart
pub mod Collect
pub mod Expiry
pub mod Clock
pub mod History
mod Tests
use co_lib.Prelude.{
  ℕ, ◌+◌, ◌*◌, List, [], ◌∷◌, ◌++◌, Option, some, none, Bool, true, false, not, ◌&&◌, ltb, leb,
  ◌==◌, if◌then◌else◌, add_word, sub_word, word_mod, ◌-◌,
}
use TimerSet.{less, insert, erase, found, take_before, drop_before, take_at, drop_at}

-- A callback by its name, or one that `OnTimer` guards by a weak pointer.
pub data Callback : Type 0 where
  call : ℕ → Callback
  on_timer : ℕ → ℕ → Callback

-- What a call of the callback runs, `alive` telling which weak pointers can be locked.
pub invoke : (ℕ → Bool) → Callback → Option ℕ
invoke alive (call cb) = some cb
invoke alive (on_timer weak_cond cb) = if alive weak_cond then some cb else none

pub record Timer : Type 0 where
  pub recurring : Bool
  pub ms : ℕ
  pub next : ℕ
  pub cb : Option Callback

pub record TimerManager : Type 0 where
  pub heap : ℕ → Timer
  pub timers : List ℕ
  pub tickled : Bool
  pub previous_time : ℕ
  pub notified : ℕ

abbrev pub is_some {ℓ} : {A : Type ℓ} → Option A → Bool
is_some none = false
is_some (some a) = true

-- The set is ordered by `Comparator`, which reads `m_next` of the timers.
abbrev pub next_of : (ℕ → Timer) → ℕ → ℕ
next_of heap id = (heap id).next

abbrev pub update : (ℕ → Timer) → ℕ → Timer → ℕ → Timer
update heap id t j = if j == id then t else heap j

-- `TimerManager::TimerManager`, where no timer is in use yet.
pub create : ℕ → (ℕ → Timer) → TimerManager
create now heap = record {
  heap = heap;
  timers = [];
  tickled = false;
  previous_time = now;
  notified = 0;
}

-- `TimerManager::addTimer(Timer::ptr, RWMutexType::WriteLock&)`; `notified` counts the calls of
-- `onTimerInsertedAtFront`.
abbrev pub is_first : ℕ → List ℕ → Bool
is_first id [] = false
is_first id (x ∷ xs) = x == id

pub insert_timer : ℕ → TimerManager → TimerManager
insert_timer id m =
    let timers = insert (next_of m.heap) id m.timers in
    let at_front = is_first id timers && not m.tickled in
    record m {
      timers = timers;
      tickled = if at_front then true else m.tickled;
      notified = if at_front then m.notified + 1 else m.notified;
    }

-- `TimerManager::addTimer`, with `Timer::Timer`; `id` is the address of the new timer.
pub add_timer : ℕ → ℕ → ℕ → Option Callback → Bool → TimerManager → TimerManager
unfolding insert_timer
add_timer now id ms cb recurring m = insert_timer id (record m {
  heap =
      update m.heap id (record { recurring = recurring; ms = ms; next = add_word now ms; cb = cb });
})

-- `TimerManager::addConditionTimer`
pub add_condition_timer : ℕ → ℕ → ℕ → ℕ → ℕ → Bool → TimerManager → TimerManager
unfolding add_timer
add_condition_timer now id ms cb weak_cond recurring m =
    add_timer now id ms (some (on_timer weak_cond cb)) recurring m

-- `m_timers.erase(m_timers.find(shared_from_this()))`
abbrev pub erase_found : ℕ → TimerManager → Option TimerManager
erase_found id m =
    if found (next_of m.heap) id m.timers
    then some (record m { timers = erase (next_of m.heap) id m.timers })
    else none

abbrev pub returning : Option TimerManager → Option (Bool × TimerManager)
returning none = none
returning (some m) = some (true, m)

-- `Timer::cancel`
pub cancel : ℕ → TimerManager → Option (Bool × TimerManager)
cancel id m =
    if is_some (m.heap id).cb
    then returning
        (erase_found id (record m { heap = update m.heap id (record (m.heap id) { cb = none }) }))
    else some (false, m)

-- `Timer::refresh`
pub refresh : ℕ → ℕ → TimerManager → Option (Bool × TimerManager)
refresh now id m =
    if not (is_some (m.heap id).cb)
    then some (false, m)
    else if not (found (next_of m.heap) id m.timers)
    then some (false, m)
    else let rest = erase (next_of m.heap) id m.timers in
      let heap = update m.heap id (record (m.heap id) { next = add_word now (m.heap id).ms }) in
      some (true, record m { heap = heap; timers = insert (next_of heap) id rest })

-- `Timer::reset`
pub reset : ℕ → ℕ → ℕ → Bool → TimerManager → Option (Bool × TimerManager)
unfolding insert_timer
reset now id ms from_now m =
    if ms == (m.heap id).ms && not from_now
    then some (true, m)
    else if not (is_some (m.heap id).cb)
    then some (false, m)
    else if not (found (next_of m.heap) id m.timers)
    then some (false, m)
    else let rest = erase (next_of m.heap) id m.timers in
      let start = if from_now then now else sub_word (m.heap id).next (m.heap id).ms in
      let timer = record (m.heap id) { ms = ms; next = add_word start ms } in
      some (true, insert_timer id (record m { heap = update m.heap id timer; timers = rest }))

-- `~0ull`
abbrev pub no_timer : ℕ
no_timer = word_mod - 1

wait_for : (ℕ → Timer) → ℕ → List ℕ → ℕ
wait_for heap now [] = no_timer
wait_for heap now (id ∷ rest) =
    if leb (next_of heap id) now then 0 else sub_word (next_of heap id) now

-- `TimerManager::getNextTimer`
pub get_next_timer : ℕ → TimerManager → ℕ × TimerManager
unfolding wait_for
get_next_timer now m = (wait_for m.heap now m.timers, record m { tickled = false })

-- `TimerManager::detectClockRollover`. The subtraction wraps.
pub detect_clock_rollover : ℕ → TimerManager → Bool × TimerManager
detect_clock_rollover now m = (
  ltb now m.previous_time && ltb now (sub_word m.previous_time (60 * 60 * 1000)),
  record m { previous_time = now },
)

-- The timers up to the iterator that `listExpiredCb` stops at, and those behind it. `now_timer` is
-- the address of its local timer.
pub expired_timers : Bool → ℕ → ℕ → TimerManager → List ℕ × List ℕ
expired_timers true now now_timer m = (m.timers, [])
expired_timers false now now_timer m =
    let next =
      next_of
        (update m.heap now_timer (record { recurring = false; ms = 0; next = now; cb = none })) in
    let from = drop_before next now_timer m.timers in
    (take_before next now_timer m.timers ++ take_at next now from, drop_at next now from)

-- The loop over the expired timers.
pub collect : ℕ → List ℕ → TimerManager → List (Option Callback) × TimerManager
collect now [] m = ([], m)
collect now (id ∷ expired) m =
    let timer = m.heap id in
    let heap = update m.heap id (
      if timer.recurring
      then record timer { next = add_word now timer.ms }
      else record timer { cb = none }) in
    let timers = if timer.recurring then insert (next_of heap) id m.timers else m.timers in
    let (cbs, m') = collect now expired (record m { heap = heap; timers = timers }) in
    (timer.cb ∷ cbs, m')

abbrev is_early : ℕ → TimerManager → Bool
is_early now m = elim m.timers [ [] ↦ true | id ∷ rest ↦ ltb now (next_of m.heap id) ]

expire : Bool → ℕ → ℕ → TimerManager → List (Option Callback) × TimerManager
unfolding expired_timers collect
expire rollover now now_timer m =
    let (expired, rest) = expired_timers rollover now now_timer m in
    if not rollover && is_early now m
    then ([], m)
    else collect now expired (record m { timers = rest })

-- `TimerManager::listExpiredCb`: the callbacks in order.
pub list_expired_cb : ℕ → ℕ → TimerManager → List (Option Callback) × TimerManager
unfolding expire detect_clock_rollover
list_expired_cb now now_timer m =
    let (rollover, m') = detect_clock_rollover now m in
    elim m.timers [ [] ↦ ([], m) | id ∷ rest ↦ expire rollover now now_timer m' ]

-- `TimerManager::hasTimer`
pub has_timer : TimerManager → Bool
has_timer m = elim m.timers [ [] ↦ false | id ∷ rest ↦ true ]

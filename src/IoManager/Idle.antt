-- ===== src/IoManager/Idle.antt =====
-- `idle` of src/iomanager.cc: how long it waits, and what it does with the timers that are due and
-- with the events that `epoll_wait` reports.
pub mod Reports
use co_lib.Prelude.{
  as_int, ℕ, ◌-◌, ◌%◌, ℤ, pos, negsuc, List, [], ◌∷◌, Option, some, none, Bool, true, false, not,
  ◌&&◌, ◌||◌, if◌then◌else◌, ◌==◌, ltb, get_elem?, word_mod, ◌>>=◌,
}
use co_lib.Fiber.{Callback}
use co_lib.Scheduler.{Task, Scheduler, any_thread, is_stopping, schedule_range}
use co_lib.Timer.{TimerManager, list_expired_cb}
use co_lib.IoManager.{
  Event, reading, writing, Mask, is_in, is_none, FdContext, IoManager, EpollCtl, op_for,
  trigger_both,
}

-- An entry of the array that `epoll_wait` fills: the read end of the pipe, or a descriptor with
-- EPOLLIN, EPOLLOUT, and whether EPOLLERR or EPOLLHUP is set.
pub data Report : Type 0 where
  of_pipe : Report
  of_fd : ℕ → Bool → Bool → Bool → Report

abbrev pub max_timeout : ℕ
max_timeout = 3000

abbrev is_longer : ℤ → Bool
is_longer (pos n) = ltb max_timeout n
is_longer (negsuc n) = false

-- The timeout that `epoll_wait` gets, for the time to the next timer.
pub epoll_timeout : ℕ → ℤ
epoll_timeout next =
    if next == word_mod - 1
    then pos max_timeout
    else if is_longer (as_int next)
    then pos max_timeout
    else as_int next

-- `stopping(timeout)`
pub is_io_stopping : ℕ → IoManager → Bool
is_io_stopping timeout m = timeout == word_mod - 1 && m.pending == 0 && is_stopping m.scheduler

abbrev pub real_events : Bool → Bool → Bool → Mask
real_events input output error = record { read = input || error; write = output || error }

abbrev pub meet : Mask → Mask → Mask
meet a b = record { read = a.read && b.read; write = a.write && b.write }

-- `a & ~b`
abbrev pub minus : Mask → Mask → Mask
minus a b = record { read = a.read && not b.read; write = a.write && not b.write }

pub handle_real : EpollCtl → ℕ → Mask → FdContext → IoManager → Option IoManager
handle_real ctl fd real c m =
    let left = minus c.events real in
    if is_none (meet c.events real)
    then some m
    else if not (ctl (op_for left) fd left)
    then some m
    else trigger_both real fd m

pub handle_event : EpollCtl → Report → IoManager → Option IoManager
handle_event ctl of_pipe m = some m
handle_event ctl (of_fd fd input output error) m = do
  c ← get_elem? m.contexts fd
  handle_real ctl fd (real_events input output error) c m

pub handle_events : EpollCtl → List Report → IoManager → Option IoManager
handle_events ctl [] m = some m
handle_events ctl (r ∷ rs) m = do m1 ← handle_event ctl r m; handle_events ctl rs m1

module _ (program : co_lib.Timer.Callback → Callback) where
  -- The callbacks of timers, as they are scheduled; `program` tells what one does.
  abbrev pub tasks_for : List (Option co_lib.Timer.Callback) → List Task
  tasks_for [] = []
  tasks_for (none ∷ cbs) = record { fiber = none; cb = none; thread = any_thread } ∷ tasks_for cbs
  tasks_for (some c ∷ cbs) =
      record { fiber = none; cb = some (program c); thread = any_thread } ∷ tasks_for cbs

  abbrev schedule_expired : List (Option co_lib.Timer.Callback) → IoManager → IoManager
  schedule_expired [] m = m
  schedule_expired (c ∷ cbs) m = record m {
    scheduler = schedule_range (tasks_for (c ∷ cbs)) m.scheduler;
  }

  -- `idle` behind `epoll_wait`, up to its `swapOut`.
  pub idle_pass :
      EpollCtl → ℕ → ℕ → List Report → IoManager → TimerManager → Option (IoManager × TimerManager)
  idle_pass ctl now now_timer rs m timers =
      let (cbs, timers') = list_expired_cb now now_timer timers in
      (do m1 ← handle_events ctl rs (schedule_expired cbs m); some (m1, timers'))

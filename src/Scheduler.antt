-- ===== src/Scheduler.antt =====
-- src/scheduler.cc and include/scheduler.h: the queue of tasks and the loop of a worker thread. The
-- fibers stand in a heap, and a `Fiber::ptr` is a place in it. A failed assertion is `none`.
pub mod Queue
pub mod Round
pub mod Callbacks
pub mod Sound
pub mod Valid
pub mod Branches
pub mod Safety
pub mod Start
mod Tests
use co_lib.Prelude.{
  ℕ, zero, suc, ◌+◌, ◌-◌, ◌%◌, ◌==◌, ltb, ℤ, pos, negsuc, List, [], ◌∷◌, ◌++◌, Option, some, none,
  Bool, true, false, not, ◌&&◌, ◌||◌, if◌then◌else◌, ◌>>=◌, add_word, sub_word,
}
use co_lib.Fiber.{
  FiberState, init, hold, exec, term, ready, except, Callback, Request, of_cb, of_self, Fiber,
  is_exec, is_term, is_over, is_ready, is_init, new_fiber, reset, swap_in, set_hold,
}

-- `FiberAndThread`
pub record Task : Type 0 where
  pub fiber : Option ℕ
  pub cb : Option Callback
  pub thread : ℤ

-- `-1`: any thread
abbrev pub any_thread : ℤ
any_thread = negsuc 0

pub record Scheduler : Type 0 where
  pub heap : ℕ → Fiber
  pub size : ℕ
  pub fibers : List Task
  pub tickles : ℕ
  pub active : ℕ
  pub idle : ℕ
  pub stopping : Bool
  pub auto_stop : Bool

abbrev pub ints_eq : ℤ → ℤ → Bool
ints_eq (pos n) (pos m) = n == m
ints_eq (pos n) (negsuc m) = false
ints_eq (negsuc n) (pos m) = false
ints_eq (negsuc n) (negsuc m) = n == m

abbrev pub is_given {ℓ} : {A : Type ℓ} → Option A → Bool
is_given none = false
is_given (some a) = true

abbrev is_empty : List Task → Bool
is_empty [] = true
is_empty (t ∷ ts) = false

pub tickle : Scheduler → Scheduler
tickle s = record s { tickles = suc s.tickles }

pub schedule_no_lock : Task → Scheduler → Scheduler × Bool
schedule_no_lock t s =
    let need_tickle = is_empty s.fibers in
    if is_given t.fiber || is_given t.cb
    then (record s { fibers = s.fibers ++ (t ∷ []) }, need_tickle)
    else (s, need_tickle)

-- `schedule(fc, thread)`
pub schedule : Task → Scheduler → Scheduler
schedule t s = let (s', need_tickle) = schedule_no_lock t s in if need_tickle then tickle s' else s'

pub schedule_each : List Task → Scheduler × Bool → Scheduler × Bool
schedule_each [] p = p
schedule_each (t ∷ ts) (s, need_tickle) =
    let (s', need) = schedule_no_lock t s in schedule_each ts (s', need || need_tickle)

-- `schedule(begin, end)`
pub schedule_range : List Task → Scheduler → Scheduler
schedule_range ts s =
    let (s', need_tickle) = schedule_each ts (s, false) in if need_tickle then tickle s' else s'

-- A task for another thread than `me`.
abbrev pub is_foreign : ℤ → Task → Bool
is_foreign me t = not (ints_eq t.thread any_thread) && not (ints_eq t.thread me)

abbrev pub is_running : (ℕ → Fiber) → Option ℕ → Bool
is_running heap none = false
is_running heap (some f) = is_exec (heap f).state

pub record Picked : Type 0 where
  pub tickle_me : Bool
  pub task : Option Task
  pub fibers : List Task

abbrev pub skip : Bool → Task → Option Picked → Option Picked
skip foreign t none = none
skip foreign t (some p) =
    some (record p { tickle_me = foreign || p.tickle_me; fibers = t ∷ p.fibers })

-- The search of `run` through the queue.
pub pick : ℤ → (ℕ → Fiber) → List Task → Option Picked
pick me heap [] = some (record { tickle_me = false; task = none; fibers = [] })
pick me heap (t ∷ ts) =
    let rest = pick me heap ts in
    if is_foreign me t
    then skip true t rest
    else if not (is_given t.fiber || is_given t.cb)
    then none
    else if is_running heap t.fiber
    then skip false t rest
    else some (record { tickle_me = false; task = some t; fibers = ts })

-- The variables of a thread in `run`; `idle_state` is the state of `idle_fiber`.
pub record Worker : Type 0 where
  pub id : ℤ
  pub cb_fiber : Option ℕ
  pub idle_state : FiberState

abbrev pub put : ℕ → Fiber → Scheduler → Scheduler
put f v s = record s { heap = λ g. if g == f then v else s.heap g }

-- The calls of `schedule` that fiber `f` makes while it runs.
pub serve : ℕ → List Request → Scheduler → Scheduler
serve f [] s = s
serve f (of_cb c thread ∷ asked) s =
    serve f asked (schedule (record { fiber = none; cb = some c; thread = thread }) s)
serve f (of_self thread ∷ asked) s =
    serve f asked (schedule (record { fiber = some f; cb = none; thread = thread }) s)

-- `swapIn` of fiber `f`, until it is back.
pub switch_to : ℕ → Scheduler → Option Scheduler
switch_to f s = do (v, asked) ← swap_in (s.heap f); some (serve f asked (put f v s))

abbrev pub release : Scheduler → Scheduler
release s = record s { active = sub_word s.active 1 }

-- `run` behind the switch to fiber `f` of a task.
pub after_fiber : ℕ → Worker → Scheduler → Worker × Scheduler
after_fiber f w s =
    if is_ready (s.heap f).state
    then (w, schedule (record { fiber = some f; cb = none; thread = any_thread }) s)
    else (w, put f (set_hold (s.heap f)) s)

-- `run` with a task that is a fiber. The test before the switch is true of every state.
pub run_fiber : ℕ → Worker → Scheduler → Option (Worker × Scheduler)
run_fiber f w s = do s1 ← switch_to f s; some (after_fiber f w (release s1))

-- The fiber that a callback gets: `cb_fiber`, or a new one.
pub cb_fiber_for : Callback → Option ℕ → Scheduler → Option (ℕ × Scheduler)
cb_fiber_for c (some f) s = do v ← reset (some c) (s.heap f); some (f, put f v s)
cb_fiber_for c none s =
    some (s.size, put s.size (new_fiber (some c)) (record s { size = suc s.size }))

pub keep_fiber : ℕ → Worker → Scheduler → Option (Worker × Scheduler)
keep_fiber f w s = do v ← reset none (s.heap f); some (record w { cb_fiber = some f }, put f v s)

-- `run` behind the switch to the fiber `f` of a callback.
pub after_cb : ℕ → Worker → Scheduler → Option (Worker × Scheduler)
after_cb f w s =
    if is_ready (s.heap f).state
    then some (
      record w { cb_fiber = none },
      schedule (record { fiber = some f; cb = none; thread = any_thread }) s,
    )
    else if is_over (s.heap f).state
    then keep_fiber f w s
    else some (record w { cb_fiber = none }, put f (record (s.heap f) { state = hold }) s)

-- `run` with a task that is a callback.
pub run_cb : Callback → Worker → Scheduler → Option (Worker × Scheduler)
run_cb c w s = do
  (f, s0) ← cb_fiber_for c w.cb_fiber s
  s1 ← switch_to f s0
  after_cb f w (release s1)

-- `Scheduler::stopping`
pub is_stopping : Scheduler → Bool
is_stopping s = s.auto_stop && s.stopping && is_empty s.fibers && s.active == 0

-- A pass of the loop of `run`: it goes on, it breaks out of the loop, or an assertion fails.
pub data Pass : Type 0 where
  goes_on : Worker → Scheduler → Pass
  breaks : Scheduler → Pass
  fails : Pass

pub pass_of : Option (Worker × Scheduler) → Pass
pass_of none = fails
pass_of (some (w, s)) = goes_on w s

-- `run` without a task: `idle_fiber` runs `idle` once around its loop.
pub run_idle : Worker → Scheduler → Pass
run_idle w s =
    if is_term w.idle_state
    then breaks s
    else if is_exec w.idle_state || is_over w.idle_state
    then fails
    else goes_on (record w { idle_state = if is_stopping s then term else hold })
        (record s { idle = sub_word s.idle 1 })

-- What `run` does with a task that it took; one with neither a fiber nor a callback is dropped.
pub run_task : Task → Worker → Scheduler → Pass
run_task t w s = go t.fiber t.cb
  where
    go : Option ℕ → Option Callback → Pass
    go (some f) cb = pass_of (run_fiber f w s)
    go none (some c) = pass_of (run_cb c w s)
    go none none = goes_on w (release s)

-- The state after the search: the task taken off the queue, the counter of active threads, `tickle`.
pub take_off : Picked → Scheduler → Scheduler
take_off p s =
    let s1 = record s {
      fibers = p.fibers;
      active = if is_given p.task then add_word s.active 1 else s.active;
    } in
    if p.tickle_me then tickle s1 else s1

pub pass : Worker → Scheduler → Pass
pass w s = go (pick w.id s.heap s.fibers)
  where
    go : Option Picked → Pass
    go none = fails
    go (some p) = with_task p.task (take_off p s)
      where
        with_task : Option Task → Scheduler → Pass
        with_task none s1 = run_idle w s1
        with_task (some t) s1 = run_task t w s1

-- `n` passes of the loop of `run` at most.
pub run : ℕ → Worker → Scheduler → Pass
run zero w s = goes_on w s
run (suc n) w s = elim (pass w s) [
  | goes_on w' s' ↦ run n w' s'
  | breaks s' ↦ breaks s'
  | fails ↦ fails
]

-- ===== src/Fiber.antt =====
-- src/fiber.cc and include/fiber.h: a fiber's states, and what a switch into it runs. The machine
-- context of a fiber is the place in its program at which a switch goes on, and a callback is the
-- tree of what it does between its switches. A failed assertion is `none`.
pub mod Transparency
pub mod Lifecycle
pub mod Orderly
mod Tests
use co_lib.Prelude.{
  ℕ, zero, suc, ◌+◌, ℤ, List, [], ◌∷◌, ◌++◌, Option, some, none, Bool, true, false, not, ◌&&◌, ◌||◌,
  if◌then◌else◌,
}

pub data FiberState : Type 0 where
  init : FiberState
  hold : FiberState
  exec : FiberState
  term : FiberState
  ready : FiberState
  except : FiberState

-- A callback that runs in a fiber: it returns, it throws, it calls `YieldToHold`, or it calls
-- `schedule` with a callback or with its own fiber and the id of a thread.
pub data Callback : Type 0 where
  returns : Callback
  throws : Callback
  yields : Callback → Callback
  schedules : Callback → ℤ → Callback → Callback
  schedules_self : ℤ → Callback → Callback

-- A call of `schedule` by a callback.
pub data Request : Type 0 where
  of_cb : Callback → ℤ → Request
  of_self : ℤ → Request

-- `m_ctx`: at the start of `MainFunc`, inside the callback, or behind the `swapOut` of `MainFunc`.
pub data Context : Type 0 where
  at_start : Context
  inside : Callback → Context
  at_end : Context

pub record Fiber : Type 0 where
  pub state : FiberState
  pub cb : Option Callback
  pub ctx : Context
  pub has_stack : Bool

abbrev pub is_exec : FiberState → Bool
is_exec init = false
is_exec hold = false
is_exec exec = true
is_exec term = false
is_exec ready = false
is_exec except = false

abbrev pub is_ready : FiberState → Bool
is_ready init = false
is_ready hold = false
is_ready exec = false
is_ready term = false
is_ready ready = true
is_ready except = false

-- TERM or EXCEPT
abbrev pub is_over : FiberState → Bool
is_over init = false
is_over hold = false
is_over exec = false
is_over term = true
is_over ready = false
is_over except = true

abbrev pub is_init : FiberState → Bool
is_init init = true
is_init hold = false
is_init exec = false
is_init term = false
is_init ready = false
is_init except = false

abbrev pub is_term : FiberState → Bool
is_term init = false
is_term hold = false
is_term exec = false
is_term term = true
is_term ready = false
is_term except = false

-- `Fiber::Fiber(cb, stacksize, use_caller)`
unfoldable pub new_fiber : Option Callback → Fiber
new_fiber cb = record { state = init; cb = cb; ctx = at_start; has_stack = true }

-- `Fiber::Fiber()`, the fiber of a thread's own stack.
pub thread_fiber : Fiber
thread_fiber = record { state = exec; cb = none; ctx = at_start; has_stack = false }

unfoldable pub reset : Option Callback → Fiber → Option Fiber
reset cb f =
    if f.has_stack && (is_over f.state || is_init f.state)
    then some (record f { cb = cb; ctx = at_start; state = init })
    else none

-- How a run of a callback ends that goes on to the next switch.
pub data Ending : Type 0 where
  returned : Ending
  threw : Ending
  yielded : Callback → Ending

pub run_callback : Callback → Ending × List Request
run_callback returns = (returned, [])
run_callback throws = (threw, [])
run_callback (yields k) = (yielded k, [])
run_callback (schedules cb thread k) =
    let (e, asked) = run_callback k in (e, of_cb cb thread ∷ asked)
run_callback (schedules_self thread k) =
    let (e, asked) = run_callback k in (e, of_self thread ∷ asked)

-- What `MainFunc` does behind the callback, and `YieldToHold` inside of it.
pub switch_out : Fiber → Ending → Fiber
switch_out f returned = record f { cb = none; state = term; ctx = at_end }
switch_out f threw = record f { state = except; ctx = at_end }
switch_out f (yielded k) = record f { ctx = inside k }

-- A fiber runs from its context to the next switch. An empty `std::function` throws when it is
-- called, and `MainFunc` asserts that nothing runs behind its `swapOut`.
pub resume : Fiber → Option (Fiber × List Request)
unfolding run_callback switch_out
resume f = go f.ctx f.cb
  where
    go : Context → Option Callback → Option (Fiber × List Request)
    go at_start none = some (switch_out f threw, [])
    go at_start (some k) = let (e, asked) = run_callback k in some (switch_out f e, asked)
    go (inside k) cb = let (e, asked) = run_callback k in some (switch_out f e, asked)
    go at_end cb = none

-- `swapIn`, until control is back.
unfoldable pub swap_in : Fiber → Option (Fiber × List Request)
unfolding resume
swap_in f = if is_exec f.state then none else resume (record f { state = exec })

-- `call`, until control is back: it has no assertion.
pub call : Fiber → Option (Fiber × List Request)
unfolding resume
call f = resume (record f { state = exec })

-- The scheduler's loop marks a fiber that is back and not over as HOLD.
unfoldable pub set_hold : Fiber → Fiber
set_hold f = if is_over f.state then f else record f { state = hold }

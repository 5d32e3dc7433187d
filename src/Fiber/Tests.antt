-- ===== src/Fiber/Tests.antt =====
-- Fibers of src/fiber.cc at work.
use co_lib.Prelude.{suc, ◌≡◌, refl, ℤ, List, some, none, true, ◌||◌, if◌then◌else◌}
use co_lib.Fiber.{
  hold, except, Callback, returns, throws, yields, schedules, schedules_self, Request, at_end,
  Fiber, inside, is_over, is_init, new_fiber, reset, swap_in,
}
use co_lib.Fiber.Transparency.{turns, asks, is_thrown, yield_count, over, turns-new_fiber}
use co_lib.Fiber.Lifecycle.{IsBack, held, swap_in-IsAtRest, reset-IsAtRest}

-- A callback that waits for an event once and then schedules another one.
abbrev waiting : Callback
waiting = schedules_self (ℤ.negsuc 0) (yields (schedules returns (ℤ.pos 7) returns))

turns-new_fiber_example :
    turns (suc (yield_count waiting)) (new_fiber (some waiting))
    ≡ some (over (is_thrown waiting) (some waiting), asks waiting)
turns-new_fiber_example = turns-new_fiber waiting

abbrev waiting_fiber : Fiber
waiting_fiber = record {
  state = hold;
  cb = some waiting;
  ctx = inside (yields throws);
  has_stack = true;
}

abbrev over_fiber : Fiber
over_fiber = record { state = except; cb = some throws; ctx = at_end; has_stack = true }

swap_in-IsAtRest_example :
    (g : Fiber) × (asked : List Request) × (swap_in waiting_fiber ≡ some (g, asked)) × IsBack g
swap_in-IsAtRest_example = swap_in-IsAtRest waiting_fiber (held (some waiting) (yields throws)) refl

-- The assertion behind the `swapOut` of `MainFunc`.
over_again : swap_in over_fiber ≡ none
unfolding swap_in
over_again = refl

reset-IsAtRest_test : reset none waiting_fiber ≡ (
    if is_over waiting_fiber.state || is_init waiting_fiber.state
    then some (new_fiber none)
    else none)
reset-IsAtRest_test = reset-IsAtRest none waiting_fiber (held (some waiting) (yields throws))

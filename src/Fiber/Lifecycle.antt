-- ===== src/Fiber/Lifecycle.antt =====
-- The states of a fiber of src/fiber.cc, and which switches into it are allowed.
use co_lib.Prelude.{◌≡◌, refl, List, Option, some, none, true, false, ◌||◌, if◌then◌else◌, arith}
use co_lib.Fiber.{
  init, hold, exec, term, except, Callback, Request, Context, at_start, inside, at_end, Fiber,
  Ending, returned, threw, yielded, is_over, is_ready, is_init, new_fiber, reset, run_callback,
  switch_out, resume, swap_in, set_hold,
}

-- Between two switches a fiber is INIT at its start, HOLD inside of its callback, or over (TERM or
-- EXCEPT) behind it.
pub data IsAtRest : Fiber → Type 0 where
  new_one :
      (cb : Option Callback)
      → IsAtRest (record { state = init; cb = cb; ctx = at_start; has_stack = true })
  held :
      (cb : Option Callback) (k : Callback)
      → IsAtRest (record { state = hold; cb = cb; ctx = inside k; has_stack = true })
  terminated :
      (cb : Option Callback)
      → IsAtRest (record { state = term; cb = cb; ctx = at_end; has_stack = true })
  failed :
      (cb : Option Callback)
      → IsAtRest (record { state = except; cb = cb; ctx = at_end; has_stack = true })

-- What a switch into a fiber gives back: it is not READY, and at rest once the scheduler has it.
abbrev pub IsBack : Fiber → Type 0
IsBack g = IsAtRest (set_hold g) × (is_ready g.state ≡ false)

settled :
    (cb : Option Callback) (ctx : Context) (e : Ending)
    → IsBack (switch_out (record { state = exec; cb = cb; ctx = ctx; has_stack = true }) e)
unfolding set_hold switch_out
settled cb ctx returned = (terminated none, refl)
settled cb ctx threw = (failed cb, refl)
settled cb ctx (yielded k) = (held cb k, refl)

-- A fiber at rest that is not over can be switched into without a failed assertion, and it is not
-- READY when it is back, and at rest again once the scheduler's loop has handled its state.
pub swap_in-IsAtRest :
    (f : Fiber)
    → IsAtRest f
    → is_over f.state ≡ false
    → (g : Fiber) × (asked : List Request) × (swap_in f ≡ some (g, asked)) × IsBack g
unfolding swap_in resume
swap_in-IsAtRest _ (new_one none) h = (_, _, refl, settled none at_start threw)
swap_in-IsAtRest _ (new_one (some c)) h = (_, _, refl, settled (some c) at_start (run_callback c).0)
swap_in-IsAtRest _ (held cb k) h = (_, _, refl, settled cb (inside k) (run_callback k).0)
swap_in-IsAtRest _ (terminated cb) h = absurd (ground arith)
swap_in-IsAtRest _ (failed cb) h = absurd (ground arith)

-- `reset` of a fiber at rest gives a new fiber of the callback, unless the fiber waits inside of its
-- old callback: then the assertion fails.
pub reset-IsAtRest :
    (cb : Option Callback) (f : Fiber)
    → IsAtRest f
    → reset cb f ≡ (if is_over f.state || is_init f.state then some (new_fiber cb) else none)
unfolding reset new_fiber
reset-IsAtRest cb _ (new_one old) = refl
reset-IsAtRest cb _ (held old k) = refl
reset-IsAtRest cb _ (terminated old) = refl
reset-IsAtRest cb _ (failed old) = refl

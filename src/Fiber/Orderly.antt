-- ===== src/Fiber/Orderly.antt =====
-- Callbacks of fibers (src/fiber.cc) that use the scheduler as its loop expects: before each of its yields a
-- callback asks for its own fiber at most once, and after it has asked it yields.
use co_lib.Prelude.{
  ℕ, suc, ◌+◌, ◌≤◌, ◌≡◌, refl, subst, List, [], ◌∷◌, Option, some, none, Bool, true, false, not,
  ◌&&◌, if◌then◌else◌, arith,
}
use co_lib.Fiber.{
  exec, Fiber, Callback, returns, throws, yields, schedules, schedules_self, Request, of_cb,
  of_self, Context, at_start, inside, at_end, Ending, returned, threw, yielded, run_callback,
  switch_out, is_over, new_fiber, swap_in, set_hold,
}
use co_lib.Fiber.Lifecycle.{IsAtRest, new_one, held, terminated, failed}

abbrev pub orderly : Bool → Callback → Bool
orderly asked returns = not asked
orderly asked throws = not asked
orderly asked (yields k) = orderly false k
orderly asked (schedules cb thread k) = orderly false cb && orderly asked k
orderly asked (schedules_self thread k) = not asked && orderly true k

abbrev pub orderly_cb : Option Callback → Bool
orderly_cb none = true
orderly_cb (some c) = orderly false c

abbrev orderly_at : Context → Option Callback → Bool
orderly_at at_start cb = orderly_cb cb
orderly_at (inside k) cb = orderly false k
orderly_at at_end cb = true

abbrev pub orderly_fiber : Fiber → Bool
orderly_fiber f = orderly_at f.ctx f.cb

abbrev pub self_count : List Request → ℕ
self_count [] = 0
self_count (of_cb c thread ∷ asked) = self_count asked
self_count (of_self thread ∷ asked) = suc (self_count asked)

abbrev pub orderly_asked : List Request → Bool
orderly_asked [] = true
orderly_asked (of_cb c thread ∷ asked) = orderly false c && orderly_asked asked
orderly_asked (of_self thread ∷ asked) = orderly_asked asked

abbrev bit : Bool → ℕ
bit true = 1
bit false = 0

-- How often a fiber may stand in the queue.
abbrev pub live : Fiber → ℕ
live f = if is_over f.state then 0 else 1

-- A run that asked `n` times for its own fiber may end so.
abbrev MayEnd : ℕ → Ending → Type 0
MayEnd n returned = n ≡ 0
MayEnd n threw = n ≡ 0
MayEnd n (yielded k) = (n ≤ 1) × (orderly false k ≡ true)

run_callback-MayEnd :
    (b : Bool) (c : Callback)
    → orderly b c ≡ true
    → MayEnd (self_count (run_callback c).1 + bit b) (run_callback c).0
      × (orderly_asked (run_callback c).1 ≡ true)
unfolding run_callback
run_callback-MayEnd true returns h = absurd (ground arith)
run_callback-MayEnd false returns h = (refl, refl)
run_callback-MayEnd true throws h = absurd (ground arith)
run_callback-MayEnd false throws h = (refl, refl)
run_callback-MayEnd true (yields k) h = ((omega arith, h), refl)
run_callback-MayEnd false (yields k) h = ((omega arith, h), refl)
run_callback-MayEnd b (schedules cb thread k) h =
    let (e, o) = run_callback-MayEnd b k (ground arith) in (e, ground arith)
run_callback-MayEnd true (schedules_self thread k) h = absurd (ground arith)
run_callback-MayEnd false (schedules_self thread k) h =
    let (e, o) = run_callback-MayEnd true k (ground arith) in
    (subst (λ n. MayEnd n (run_callback k).0) (omega arith) e, o)

-- What an orderly fiber leaves behind at a switch.
abbrev pub LeavesOrder : Fiber × List Request → Type 0
LeavesOrder (g, asked) =
    (orderly_fiber (set_hold g) ≡ true)
    × (orderly_asked asked ≡ true)
    × (self_count asked ≤ live (set_hold g))

leave :
    (cb : Option Callback) (ctx : Context) (e : Ending) (asked : List Request)
    → MayEnd (self_count asked + 0) e
    → orderly_asked asked ≡ true
    → LeavesOrder
        (switch_out (record { state = exec; cb = cb; ctx = ctx; has_stack = true }) e, asked)
unfolding switch_out set_hold
leave cb ctx returned asked m o = (refl, o, omega arith)
leave cb ctx threw asked m o = (refl, o, omega arith)
leave cb ctx (yielded k) asked (le, ok) o = (ok, o, omega arith)

-- The result of a switch that does not fail.
abbrev taken : Option (Fiber × List Request) → Fiber × List Request
taken none = (new_fiber none, [])
taken (some p) = p

swap_in-taken :
    (f : Fiber)
    → IsAtRest f
    → is_over f.state ≡ false
    → orderly_fiber f ≡ true
    → LeavesOrder (taken (swap_in f))
unfolding swap_in
swap_in-taken _ (new_one none) h o = leave none at_start threw [] refl refl
swap_in-taken _ (new_one (some c)) h o =
    let (e, a) = run_callback-MayEnd false c o in
    leave (some c) at_start (run_callback c).0 (run_callback c).1 e a
swap_in-taken _ (held cb k) h o =
    let (e, a) = run_callback-MayEnd false k o in
    leave cb (inside k) (run_callback k).0 (run_callback k).1 e a
swap_in-taken _ (terminated cb) h o = absurd (ground arith)
swap_in-taken _ (failed cb) h o = absurd (ground arith)

pub swap_in-LeavesOrder :
    (f g : Fiber) (asked : List Request)
    → IsAtRest f
    → is_over f.state ≡ false
    → orderly_fiber f ≡ true
    → swap_in f ≡ some (g, asked)
    → LeavesOrder (g, asked)
swap_in-LeavesOrder f g asked rest h o e =
    subst (λ r. LeavesOrder (taken r)) e (swap_in-taken f rest h o)

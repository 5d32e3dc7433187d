-- ===== src/Fiber/Transparency.antt =====
-- What a fiber of src/fiber.cc runs from its start to its end, switch by switch.
use co_lib.Prelude.{
  ℕ, zero, suc, ◌≡◌, refl, ap, ◌∙◌, List, [], ◌∷◌, ◌++◌, Option, some, none, Bool, true, false,
  ◌>>=◌,
}
use co_lib.Fiber.{
  exec, term, except, Callback, returns, throws, yields, schedules, schedules_self, Request, of_cb,
  of_self, Context, at_start, inside, at_end, Fiber, Ending, new_fiber, run_callback, switch_out,
  resume, swap_in, set_hold,
}

-- `n` switches into a fiber, each after the one before is back, and what they ask of the scheduler.
pub turns : ℕ → Fiber → Option (Fiber × List Request)
unfolding swap_in set_hold
turns zero f = some (f, [])
turns (suc n) f = do
  (g, asked) ← swap_in f
  (h, rest) ← turns n (set_hold g)
  some (h, asked ++ rest)

-- The callback run on its own, as if `YieldToHold` were nothing: what it asks for, how it ends.
pub asks : Callback → List Request
asks returns = []
asks throws = []
asks (yields k) = asks k
asks (schedules cb thread k) = of_cb cb thread ∷ asks k
asks (schedules_self thread k) = of_self thread ∷ asks k

pub is_thrown : Callback → Bool
is_thrown returns = false
is_thrown throws = true
is_thrown (yields k) = is_thrown k
is_thrown (schedules cb thread k) = is_thrown k
is_thrown (schedules_self thread k) = is_thrown k

pub yield_count : Callback → ℕ
yield_count returns = 0
yield_count throws = 0
yield_count (yields k) = suc (yield_count k)
yield_count (schedules cb thread k) = yield_count k
yield_count (schedules_self thread k) = yield_count k

-- A fiber whose callback is over.
pub over : Bool → Option Callback → Fiber
over true cb = record { state = except; cb = cb; ctx = at_end; has_stack = true }
over false cb = record { state = term; cb = none; ctx = at_end; has_stack = true }

running : Option Callback → Context → Fiber
running cb ctx = record { state = exec; cb = cb; ctx = ctx; has_stack = true }

-- The rest of `turns` after a run of the callback.
after : ℕ → Fiber → Ending × List Request → Option (Fiber × List Request)
unfolding turns set_hold switch_out
after n f p = do (h, rest) ← turns n (set_hold (switch_out f p.0)); some (h, p.1 ++ rest)

also_asks : Request → Option (Fiber × List Request) → Option (Fiber × List Request)
also_asks r none = none
also_asks r (some (h, asked)) = some (h, r ∷ asked)

bind-cons :
    (o : Option (Fiber × List Request)) (asked : List Request) (r : Request)
    → (o >>= λ q. some (q.0, r ∷ (asked ++ q.1)))
      ≡ also_asks r (o >>= λ q. some (q.0, asked ++ q.1))
unfolding also_asks
bind-cons none asked r = refl
bind-cons (some q) asked r = refl

after-cons :
    (n : ℕ) (f : Fiber) (p : Ending × List Request) (r : Request) (h : Fiber) (rest : List Request)
    → after n f p ≡ some (h, rest)
    → after n f (p.0, r ∷ p.1) ≡ some (h, r ∷ rest)
unfolding after also_asks
after-cons n f p r h rest e =
    bind-cons (turns n (set_hold (switch_out f p.0))) p.1 r ∙ ap (also_asks r) e

turns-running :
    (c : Callback) (cb : Option Callback) (ctx : Context)
    → after (yield_count c) (running cb ctx) (run_callback c) ≡ some (over (is_thrown c) cb, asks c)
unfolding after turns swap_in resume run_callback switch_out set_hold over running asks is_thrown
    yield_count
turns-running returns cb ctx = refl
turns-running throws cb ctx = refl
turns-running (yields k) cb ctx = rw (turns-running k cb (inside k)) refl
turns-running (schedules t thread k) cb ctx =
    after-cons (yield_count k) (running cb ctx) (run_callback k) _ _ _ (turns-running k cb ctx)
turns-running (schedules_self thread k) cb ctx =
    after-cons (yield_count k) (running cb ctx) (run_callback k) _ _ _ (turns-running k cb ctx)

-- A new fiber of a callback, switched into once more than the callback yields, does what the
-- callback does on its own: it asks the scheduler for the same in the same order, and it is over, in
-- state TERM or EXCEPT as the callback returns or throws.
pub turns-new_fiber :
    (c : Callback)
    → turns (suc (yield_count c)) (new_fiber (some c)) ≡ some (over (is_thrown c) (some c), asks c)
unfolding turns swap_in resume after running new_fiber
turns-new_fiber c = turns-running c (some c) at_start

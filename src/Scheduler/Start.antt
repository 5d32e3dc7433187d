-- ===== src/Scheduler/Start.antt =====
-- From a new scheduler of src/scheduler.cc on: callbacks are scheduled, and the loop runs.
use co_lib.Prelude.{
  ℕ, ◌≡◌, refl, ap, inl, ℤ, List, [], ◌∷◌, some, none, Bool, true, false, ◌&&◌, arith,
}
use co_lib.Fiber.{init, Callback, new_fiber}
use co_lib.Fiber.Orderly.{orderly, orderly_fiber}
use co_lib.Scheduler.{Task, Scheduler, Worker, schedule_range, run}
use co_lib.Scheduler.Queue.{all, filter_work, schedule_range_lem}
use co_lib.Scheduler.Callbacks.{at_rest}
use co_lib.Scheduler.Sound.{count, is_fit}
use co_lib.Scheduler.Valid.{IsValid, IsSafe}
use co_lib.Scheduler.Safety.{run-IsSafe}

-- A callback to be scheduled, and the thread that is to run it.
abbrev pub tasks_of : List (Callback × ℤ) → List Task
tasks_of [] = []
tasks_of ((c, thread) ∷ cs) = record { fiber = none; cb = some c; thread = thread } ∷ tasks_of cs

abbrev pub all_orderly : List (Callback × ℤ) → Bool
all_orderly [] = true
all_orderly ((c, thread) ∷ cs) = orderly false c && all_orderly cs

-- A scheduler as it is constructed, with the flags of `stop`.
abbrev pub created : Bool → Bool → Scheduler
created stopping auto_stop = record {
  heap = λ f. new_fiber none;
  size = 0;
  fibers = [];
  tickles = 0;
  active = 0;
  idle = 0;
  stopping = stopping;
  auto_stop = auto_stop;
}

-- A thread at the start of `run`.
abbrev pub new_worker : ℤ → Worker
new_worker id = record { id = id; cb_fiber = none; idle_state = init }

filter_work-tasks_of : (cs : List (Callback × ℤ)) → filter_work (tasks_of cs) ≡ tasks_of cs
filter_work-tasks_of [] = refl
filter_work-tasks_of ((c, thread) ∷ cs) =
    ap (λ ts. record { fiber = none; cb = some c; thread = thread } ∷ ts) (filter_work-tasks_of cs)

count-tasks_of : (f : ℕ) (cs : List (Callback × ℤ)) → count f (tasks_of cs) ≡ 0
count-tasks_of f [] = refl
count-tasks_of f ((c, thread) ∷ cs) = omega (arith, count-tasks_of f cs)

fit-tasks_of : (cs : List (Callback × ℤ)) → all_orderly cs ≡ true → all is_fit (tasks_of cs) ≡ true
fit-tasks_of [] h = refl
fit-tasks_of ((c, thread) ∷ cs) h = ground (arith, fit-tasks_of cs)

empty_order : orderly_fiber (new_fiber none) ≡ true
unfolding new_fiber
empty_order = refl

start-IsValid :
    (id : ℤ) (cs : List (Callback × ℤ)) (stopping auto_stop : Bool) (n : ℕ)
    → all_orderly cs ≡ true
    → IsValid
        (new_worker id)
        (record (created stopping auto_stop) { fibers = tasks_of cs; tickles = n })
start-IsValid id cs stopping auto_stop n h = record {
  sound = record {
    rest = λ f. at_rest none;
    order = λ f. empty_order;
    fit = fit-tasks_of cs h;
    once = λ f. omega (arith, count-tasks_of f cs);
    fresh = λ f le. count-tasks_of f cs;
  };
  slot = inl refl;
  idle = refl;
}

-- When callbacks that use their fibers in an orderly way are scheduled on a new scheduler, a thread
-- that runs the loop never fails an assertion of the loop, of a switch or of `reset`, however often
-- it goes round: between two passes the state is valid, so that each fiber is INIT, HOLD or over, and stands in the queue at most once, and
-- not at all when it is over.
pub run-schedule_range :
    (n : ℕ) (id : ℤ) (cs : List (Callback × ℤ)) (stopping auto_stop : Bool)
    → all_orderly cs ≡ true
    → IsSafe (run n (new_worker id) (schedule_range (tasks_of cs) (created stopping auto_stop)))
run-schedule_range n id cs stopping auto_stop h =
    rw (schedule_range_lem (tasks_of cs) (created stopping auto_stop), filter_work-tasks_of cs)
      (run-IsSafe n (new_worker id) _ (start-IsValid id cs stopping auto_stop _ h))

-- ===== src/Scheduler/Tests.antt =====
-- The scheduler of src/scheduler.cc at work.
use co_lib.Prelude.{
  Bool, ◌≡◌, refl, inl, ℤ, pos, List, [], ◌∷◌, ◌++◌, some, none, true, false, not, ◌&&◌, ◌⊎◌,
  if◌then◌else◌,
}
use co_lib.Fiber.{
  reset, new_fiber, init, hold, inside, Callback, returns, throws, yields, schedules,
  schedules_self, Request, Fiber, swap_in, set_hold,
}
use co_lib.Fiber.Lifecycle.{IsAtRest, held}
use co_lib.Scheduler.{
  pass, take_off, run_task, run_cb, run_idle, schedule_each, schedule_no_lock, schedule, tickle,
  serve, switch_to, after_fiber, after_cb, keep_fiber, cb_fiber_for, is_stopping, pass_of, run,
  Pass, goes_on, breaks, fails, Task, Scheduler, any_thread, is_empty, schedule_range, is_foreign,
  pick, Worker, run_fiber,
}
use co_lib.Scheduler.Queue.{passes_over, all, any, pick-splits, filter_work, schedule_range_lem}
use co_lib.Scheduler.Valid.{IsSafe}
use co_lib.Scheduler.Start.{tasks_of, created, new_worker, run-schedule_range}
use co_lib.Scheduler.Round.{HasRun, run_fiber-HasRun}
use co_lib.Scheduler.Callbacks.{HasCalled, run_cb-HasRun}

abbrev task_for : ℤ → Callback → Task
task_for thread c = record { fiber = none; cb = some c; thread = thread }

-- A task for another thread, one of a fiber, and an empty one.
abbrev three : List Task
three =
    task_for (pos 9) returns
    ∷ record { fiber = some 0; cb = none; thread = pos 7 }
    ∷ task_for any_thread throws
    ∷ []

abbrev held_fiber : Fiber
held_fiber = record {
  state = hold;
  cb = some returns;
  ctx = inside (schedules returns (pos 9) throws);
  has_stack = true;
}

abbrev ready_scheduler : Scheduler
ready_scheduler = record {
  heap = λ f. held_fiber;
  size = 1;
  fibers = three;
  tickles = 0;
  active = 0;
  idle = 0;
  stopping = true;
  auto_stop = true;
}

abbrev worker : Worker
worker = record { id = pos 7; cb_fiber = none; idle_state = init }

abbrev to_stop : Scheduler
to_stop = record ready_scheduler {
  fibers = task_for any_thread (schedules_self any_thread (yields returns)) ∷ [];
}

pick-splits_example :
    ((all (passes_over (pos 7) (λ f. held_fiber)) three ≡ true)
      × (pick (pos 7) (λ f. held_fiber) three
          ≡ some
              (record { tickle_me = any (is_foreign (pos 7)) three; task = none; fibers = three })))
    ⊎ ((before : List Task) × (t : Task) × (after : List Task) × (three ≡ before ++ (t ∷ after))
        × (all (passes_over (pos 7) (λ f. held_fiber)) before ≡ true)
        × (passes_over (pos 7) (λ f. held_fiber) t ≡ false)
        × (pick (pos 7) (λ f. held_fiber) three
            ≡ some (record {
              tickle_me = any (is_foreign (pos 7)) before;
              task = some t;
              fibers = before ++ after;
            })))
pick-splits_example = pick-splits (pos 7) (λ f. held_fiber) three refl

schedule_range_lem_test : schedule_range three ready_scheduler ≡ record ready_scheduler {
  fibers = three ++ filter_work three;
  tickles = if is_empty three && not (is_empty three) then 1 else 0;
}
schedule_range_lem_test = schedule_range_lem three ready_scheduler

run_fiber-HasRun_example :
    (g : Fiber) × (asked : List Request) × (s' : Scheduler) × (swap_in held_fiber ≡ some (g, asked))
    × (run_fiber 0 worker ready_scheduler ≡ some (worker, s'))
    × HasRun 0 (set_hold g) asked ready_scheduler s'
    × IsAtRest (s'.heap 0)
run_fiber-HasRun_example =
    run_fiber-HasRun 0 worker ready_scheduler
      (held (some returns) (schedules returns (pos 9) throws)) refl

run_cb-HasRun_example : HasCalled (schedules returns (pos 9) (yields throws)) worker ready_scheduler
run_cb-HasRun_example =
    run_cb-HasRun (schedules returns (pos 9) (yields throws)) worker ready_scheduler (inl refl)

abbrev two_callbacks : List (Callback × ℤ)
two_callbacks =
    (schedules_self any_thread (yields (schedules returns (pos 7) throws)), any_thread)
    ∷ (returns, pos 7)
    ∷ []

run-schedule_range_example :
    IsSafe
      (run 100 (new_worker (pos 7)) (schedule_range (tasks_of two_callbacks) (created true true)))
run-schedule_range_example = run-schedule_range 100 (pos 7) two_callbacks true true refl

abbrev is_done : Pass → Bool
is_done (goes_on w s) = false
is_done (breaks s) = is_empty s.fibers
is_done fails = false

-- After `stop`, the loop empties the queue and ends.
loop_is_done :
    is_done
      (run 9 (new_worker (pos 7)) (schedule_range (tasks_of two_callbacks) (created true true)))
    ≡ true
unfolding run pass pick take_off run_task run_fiber run_cb run_idle schedule_range schedule_each
    schedule_no_lock schedule tickle serve switch_to after_fiber after_cb keep_fiber cb_fiber_for
    is_stopping pass_of swap_in reset new_fiber set_hold
loop_is_done = refl

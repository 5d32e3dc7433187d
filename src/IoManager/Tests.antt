-- ===== src/IoManager/Tests.antt =====
-- Events of src/iomanager.cc at work.
use co_lib.Prelude.{
  negsuc, ℕ, ◌≡◌, ◌⊎◌, refl, pos, [], some, none, true, false, not, ◌&&◌, arith, set, ap,
}
use co_lib.Fiber.{exec, at_start, returns}
use co_lib.Scheduler.{Scheduler}
use co_lib.IoManager.{
  new_context, context_resize, add_to_context, reading, is_none, EventContext, IoManager, Caller,
  EpollCtl, ctl_del, fill_context, add_event, cancel_all,
}
use co_lib.IoManager.Contexts.{IsValid}
use co_lib.IoManager.Operations.{mask_at}
use co_lib.IoManager.Triggers.{HasTaken, cancel_all-HasTaken}
use co_lib.Timer.{no_timer}
use co_lib.IoManager.Idle.{of_fd, handle_event, epoll_timeout, max_timeout}
use co_lib.IoManager.Idle.Reports.{handle_event-error, epoll_timeout_lem}
use co_lib.IoManager.History.{
  cancels, here, then_call, Proceeds, step, state_of, created, Reach-Proceeds, adds,
}

abbrev busy : Scheduler
busy = record {
  heap = λ f. record { state = exec; cb = some returns; ctx = at_start; has_stack = true };
  size = 1;
  fibers = [];
  tickles = 0;
  active = 1;
  idle = 0;
  stopping = false;
  auto_stop = false;
}

abbrev accepting : EpollCtl
accepting = λ op fd mask. true

abbrev caller : Caller
caller = record { in_scheduler = true; fiber = 0 }

abbrev fiber_waits : EventContext
fiber_waits = record { scheduler = true; fiber = some 0; cb = none }

-- Descriptor 40, which is beyond the 32 contexts that there are at first, waits to read.
abbrev waiting : IoManager
waiting = record (created busy) {
  contexts =
      set (context_resize 60 (created busy).contexts) 40
        (record new_context { read = fiber_waits; events = record { read = true; write = false } });
  pending = 1;
}

waiting-IsValid : IsValid waiting
unfolding context_resize
waiting-IsValid = record { sound = refl; counted = refl; room = omega arith }

waiting_is_added : add_event accepting caller 40 reading none (created busy) ≡ some (true, waiting)
unfolding add_event add_to_context fill_context context_resize
waiting_is_added = refl

Reach-Proceeds_example : Proceeds accepting (cancels 40 reading) waiting
unfolding step fill_context
Reach-Proceeds_example =
    Reach-Proceeds busy waiting accepting (cancels 40 reading)
      (then_call accepting (adds caller 40 reading none) here (refl, refl, fiber_waits, refl)
        (ap state_of waiting_is_added))
      tt

cancel_all-HasTaken_example :
    (((not (is_none (mask_at 40 waiting))
          && accepting ctl_del 40 (record { read = false; write = false }))
        ≡ true)
      × (m' : IoManager) × (cancel_all accepting 40 waiting ≡ some (true, m'))
      × HasTaken (mask_at 40 waiting) 40 waiting m')
    ⊎ (((not (is_none (mask_at 40 waiting))
            && accepting ctl_del 40 (record { read = false; write = false }))
          ≡ false)
        × (cancel_all accepting 40 waiting ≡ some (false, waiting)))
cancel_all-HasTaken_example = cancel_all-HasTaken accepting 40 waiting waiting-IsValid

handle_event-error_example : handle_event accepting (of_fd 40 false false true) waiting ≡ none
unfolding context_resize
handle_event-error_example = handle_event-error accepting 40 waiting waiting-IsValid refl refl

epoll_timeout_lem_example :
    (epoll_timeout 500 ≡ pos 500)
    × (epoll_timeout no_timer ≡ pos max_timeout)
    × ((n : ℕ) × (epoll_timeout 3000000000 ≡ negsuc n))
epoll_timeout_lem_example =
    epoll_timeout_lem 500 3000000000 (omega arith) (omega arith) (omega arith)

-- ===== src/IoManager/History.antt =====
-- Any sequence of calls on the `IOManager` of src/iomanager.cc and of reports by `epoll_wait`, in any
-- order that the locks may bring about.
use mathlib.Core.Option.{some-injective}
use co_lib.Prelude.{
  ℕ, ◌≡◌, refl, sym, ◌∙◌, ap, subst, inl, inr, Option, some, none, Bool, true, false, replicate,
  arith,
}
use co_lib.Fiber.{Callback}
use co_lib.Scheduler.{Scheduler}
use co_lib.IoManager.{
  Event, EventContext, IoManager, Caller, EpollCtl, new_context, fill_context, add_event, del_event,
  cancel_event, cancel_all,
}
use co_lib.IoManager.Contexts.{IsValid}
use co_lib.IoManager.Registry.{event_at}
use co_lib.IoManager.Operations.{del_event-HasChanged, cancel_event-HasTriggered}
use co_lib.IoManager.Adding.{HasAdded, add_event-HasAdded}
use co_lib.IoManager.Triggers.{cancel_all-HasTaken}
use co_lib.IoManager.Idle.{Report, of_pipe, of_fd, real_events, handle_event}
use co_lib.IoManager.Idle.Reports.{IsReported, handle_pipe, handle_event-HasTaken}

-- A call, or a report; `epoll_ctl` may answer each one as it likes.
pub data Call : Type 0 where
  adds : Caller → ℕ → Event → Option Callback → Call
  dels : ℕ → Event → Call
  cancels : ℕ → Event → Call
  cancels_all : ℕ → Call
  reports : Report → Call

abbrev pub state_of : Option (Bool × IoManager) → Option IoManager
state_of none = none
state_of (some (b, m)) = some m

unfoldable pub step : EpollCtl → Call → IoManager → Option IoManager
step ctl (adds caller fd e cb) m = state_of (add_event ctl caller fd e cb m)
step ctl (dels fd e) m = some (del_event ctl fd e m).1
step ctl (cancels fd e) m = state_of (cancel_event ctl fd e m)
step ctl (cancels_all fd) m = state_of (cancel_all ctl fd m)
step ctl (reports r) m = handle_event ctl r m

-- `addEvent` is called for an event that is not registered, from a thread of the scheduler, and
-- with a callback or from a running fiber; a report names registered events.
abbrev pub IsAllowed : Call → IoManager → Type 0
IsAllowed (adds caller fd e cb) m =
    ((event_at fd e m.contexts).0 ≡ false)
    × (caller.in_scheduler ≡ true)
    × (x : EventContext) × (fill_context caller cb m.scheduler ≡ some x)
IsAllowed (reports (of_fd fd input output error)) m =
    IsReported fd (real_events input output error) m
IsAllowed _ m = Unit

pub data Reach (m : IoManager) : IoManager → Type 0 where
  here : Reach m m
  then_call :
      {t u : IoManager} (ctl : EpollCtl) (c : Call)
      → Reach m t
      → IsAllowed c t
      → step ctl c t ≡ some u
      → Reach m u

abbrev pub Proceeds : EpollCtl → Call → IoManager → Type 0
Proceeds ctl c m = (u : IoManager) × (step ctl c m ≡ some u) × IsValid u

step-Proceeds :
    (ctl : EpollCtl) (c : Call) (m : IoManager) → IsAllowed c m → IsValid m → Proceeds ctl c m
unfolding step
step-Proceeds ctl (adds caller fd e cb) m (absent, in_scheduler, x, filled) v =
    let (b, m', t, s, done) =
      add_event-HasAdded ctl caller fd e cb m x v absent in_scheduler filled in
    (m', ap state_of t, added b m' done)
  where
    added : (b : Bool) (m' : IoManager) → HasAdded ctl caller fd e cb x m b m' → IsValid m'
    added true m' done = done.valid
    added false m' done = done.1
step-Proceeds ctl (dels fd e) m allowed v = elim (del_event-HasChanged ctl fd e m v) [
  | inl (h, m', t, done, s) ↦ (m', ap (λ p. some p.1) t, done.valid)
  | inr (h, t) ↦ (m, ap (λ p. some p.1) t, v)
]
step-Proceeds ctl (cancels fd e) m allowed v = elim (cancel_event-HasTriggered ctl fd e m v) [
  | inl (h, m', t, done) ↦ (m', ap state_of t, done.change.valid)
  | inr (h, t) ↦ (m, ap state_of t, v)
]
step-Proceeds ctl (cancels_all fd) m allowed v = elim (cancel_all-HasTaken ctl fd m v) [
  | inl (h, m', t, done) ↦ (m', ap state_of t, done.valid)
  | inr (h, t) ↦ (m, ap state_of t, v)
]
step-Proceeds ctl (reports of_pipe) m allowed v = (m, handle_pipe ctl m, v)
step-Proceeds ctl (reports (of_fd fd input output error)) m allowed v =
    let (m', t, done) = handle_event-HasTaken ctl fd input output error m v allowed in
    (m', t, elim done [ inl taken ↦ taken.valid | inr same ↦ subst IsValid (sym same) v ])

Reach-IsValid : {m t : IoManager} → IsValid m → Reach m t → IsValid t
Reach-IsValid v here = v
Reach-IsValid v (then_call {t} {u} ctl c r f e) =
    let (u', e', v') = step-Proceeds ctl c t f (Reach-IsValid v r) in
    subst IsValid (some-injective u' u (sym e' ∙ e)) v'

-- As it is constructed, with 32 contexts.
abbrev pub created : Scheduler → IoManager
created s = record { scheduler = s; contexts = replicate 32 new_context; pending = 0 }

-- From a new manager on, whatever was called and reported before, and however `epoll_ctl` answers:
-- an allowed call or report fails no assertion, uses no null pointer, and leaves a state in which
-- each registered event, and no other, has a scheduler and either a fiber or a callback, and the
-- counter of pending events is the number of registered events.
pub Reach-Proceeds :
    (s : Scheduler) (t : IoManager) (ctl : EpollCtl) (c : Call)
    → Reach (created s) t
    → IsAllowed c t
    → Proceeds ctl c t
Reach-Proceeds s t ctl c r f =
    step-Proceeds ctl c t f
      (Reach-IsValid (record { sound = refl; counted = refl; room = omega arith }) r)

-- ===== src/IoManager.antt =====
-- src/iomanager.cc and include/iomanager.h: the events that fibers and callbacks wait for. A pointer
-- to a context is its place in `m_fdContexts`, the descriptor. `none` is a failed assertion or the
-- use of a null pointer. What `epoll_ctl` answers is an argument.
pub mod Contexts
pub mod Registry
pub mod Operations
pub mod Adding
pub mod Triggers
pub mod Idle
pub mod History
mod Tests
use co_lib.Prelude.{
  ℕ, ◌+◌, ◌-◌, ◌*◌, ◌/◌, List, [], ◌∷◌, ◌++◌, Option, some, none, Bool, true, false, not, ◌&&◌,
  ◌||◌, if◌then◌else◌, ◌>>=◌, ltb, length, take, get_elem?, set, replicate, add_word, sub_word,
}
use co_lib.Fiber.{Callback, is_exec}
use co_lib.Scheduler.{Task, Scheduler, any_thread, is_given, schedule}

-- READ and WRITE
pub data Event : Type 0 where
  reading : Event
  writing : Event

-- A set of events: the bits 0x1 and 0x4.
pub record Mask : Type 0 where
  pub read : Bool
  pub write : Bool

abbrev pub is_in : Event → Mask → Bool
is_in reading m = m.read
is_in writing m = m.write

-- `m | e`
abbrev pub with_event : Event → Mask → Mask
with_event reading m = record m { read = true }
with_event writing m = record m { write = true }

-- `m & ~e`
abbrev pub without_event : Event → Mask → Mask
without_event reading m = record m { read = false }
without_event writing m = record m { write = false }

abbrev pub is_none : Mask → Bool
is_none m = not (m.read || m.write)

-- `FdContext::EventContext`; `scheduler` tells whether the pointer is set.
pub record EventContext : Type 0 where
  pub scheduler : Bool
  pub fiber : Option ℕ
  pub cb : Option Callback

pub record FdContext : Type 0 where
  pub read : EventContext
  pub write : EventContext
  pub events : Mask

abbrev pub empty_context : EventContext
empty_context = record { scheduler = false; fiber = none; cb = none }

abbrev pub new_context : FdContext
new_context = record {
  read = empty_context;
  write = empty_context;
  events = record { read = false; write = false };
}

-- `getContext`
abbrev pub get_context : Event → FdContext → EventContext
get_context reading c = c.read
get_context writing c = c.write

-- An assignment to the reference that `getContext` returns.
abbrev pub put_context : Event → EventContext → FdContext → FdContext
put_context reading x c = record c { read = x }
put_context writing x c = record c { write = x }

abbrev pub reset_context : Event → FdContext → FdContext
reset_context e = put_context e empty_context

abbrev cb_task : Callback → Task
cb_task c = record { fiber = none; cb = some c; thread = any_thread }

abbrev fiber_task : Option ℕ → Task
fiber_task f = record { fiber = f; cb = none; thread = any_thread }

-- The branch of `triggerEvent`: what is scheduled, and what is left of the context.
abbrev pub take_task : EventContext → Option Callback → Task × EventContext
take_task x (some c) = (cb_task c, record x { scheduler = false; cb = none })
take_task x none = (fiber_task x.fiber, record x { scheduler = false; fiber = none })

pub trigger_event : Event → FdContext → Scheduler → Option (FdContext × Scheduler)
trigger_event e c s =
    let x = get_context e c in
    let (task, x') = take_task x x.cb in
    if not (is_in e c.events)
    then none
    else if not x.scheduler
    then none
    else some (record (put_context e x' c) { events = without_event e c.events }, schedule task s)

pub record IoManager : Type 0 where
  pub scheduler : Scheduler
  pub contexts : List FdContext
  pub pending : ℕ

-- Who calls: whether its thread has a scheduler, and the fiber that it runs in.
pub record Caller : Type 0 where
  pub in_scheduler : Bool
  pub fiber : ℕ

pub data Op : Type 0 where
  ctl_add : Op
  ctl_mod : Op
  ctl_del : Op

-- `epoll_ctl(op, fd, events)`, and whether it succeeds.
abbrev pub EpollCtl : Type 0
EpollCtl = Op → ℕ → Mask → Bool

pub context_resize : ℕ → List FdContext → List FdContext
context_resize size cs = take size cs ++ replicate (size - length cs) new_context

abbrev is_empty_context : EventContext → Bool
is_empty_context x = not (x.scheduler || is_given x.fiber || is_given x.cb)

-- The context that `addEvent` fills in; without a callback it is the calling fiber's.
pub fill_context : Caller → Option Callback → Scheduler → Option EventContext
fill_context caller (some c) s =
    some (record { scheduler = caller.in_scheduler; fiber = none; cb = some c })
fill_context caller none s =
    if is_exec (s.heap caller.fiber).state
    then some (record { scheduler = caller.in_scheduler; fiber = some caller.fiber; cb = none })
    else none

-- `addEvent` behind the search for the context: 0 is `true`, and -1 is `false`.
pub add_to_context :
    EpollCtl
    → Caller
    → ℕ
    → Event
    → Option Callback
    → FdContext
    → IoManager
    → Option (Bool × IoManager)
add_to_context ctl caller fd e cb c m =
    let op = if is_none c.events then ctl_add else ctl_mod in
    let events = with_event e c.events in
    let filled = fill_context caller cb m.scheduler in
    if is_in e c.events
    then none
    else if not (ctl op fd events)
    then some (false, m)
    else if not (is_empty_context (get_context e c))
    then none
    else (do
      x ← filled
      some (
        true,
        record m {
          pending = add_word m.pending 1;
          contexts = set m.contexts fd (record (put_context e x c) { events = events });
        },
      ))

abbrev pub room_for : ℕ → IoManager → IoManager
room_for fd m =
    if ltb fd (length m.contexts)
    then m
    else record m { contexts = context_resize (fd * 3 / 2) m.contexts }

pub add_event :
    EpollCtl → Caller → ℕ → Event → Option Callback → IoManager → Option (Bool × IoManager)
add_event ctl caller fd e cb m = do
  c ← get_elem? (room_for fd m).contexts fd
  add_to_context ctl caller fd e cb c (room_for fd m)

abbrev pub op_for : Mask → Op
op_for events = if is_none events then ctl_del else ctl_mod

-- `delEvent` of a context that there is.
pub del_from_context : EpollCtl → ℕ → Event → FdContext → IoManager → Bool × IoManager
del_from_context ctl fd e c m =
    let events = without_event e c.events in
    if not (is_in e c.events)
    then (false, m)
    else if not (ctl (op_for events) fd events)
    then (false, m)
    else (
      true,
      record m {
        pending = sub_word m.pending 1;
        contexts = set m.contexts fd (record (reset_context e c) { events = events });
      },
    )

pub del_event : EpollCtl → ℕ → Event → IoManager → Bool × IoManager
del_event ctl fd e m = elim (get_elem? m.contexts fd) [
  | none ↦ (false, m)
  | some c ↦ del_from_context ctl fd e c m
]

-- `triggerEvent` of the context at `fd`, and the count of pending events after it.
pub trigger_at : ℕ → Event → IoManager → Option IoManager
trigger_at fd e m = do
  c ← get_elem? m.contexts fd
  (c', s) ← trigger_event e c m.scheduler
  some (record m { scheduler = s; contexts = set m.contexts fd c'; pending = sub_word m.pending 1 })

-- A call that returns `false` and changes nothing.
abbrev refuse : IoManager → Option (Bool × IoManager)
refuse m = some (false, m)

abbrev accept : Option IoManager → Option (Bool × IoManager)
accept none = none
accept (some m) = some (true, m)

pub cancel_event : EpollCtl → ℕ → Event → IoManager → Option (Bool × IoManager)
cancel_event ctl fd e m = elim (get_elem? m.contexts fd) [
  | none ↦ refuse m
  | some c ↦
      let events = without_event e c.events in
      if not (is_in e c.events)
      then refuse m
      else if not (ctl (op_for events) fd events)
      then refuse m
      else accept (trigger_at fd e m)
]

-- `if (events & e) { triggerEvent(e); --m_pendingEventCount; }`
pub trigger_if : Bool → ℕ → Event → IoManager → Option IoManager
trigger_if false fd e m = some m
trigger_if true fd e m = trigger_at fd e m

-- The two branches on READ and WRITE, one after the other.
pub trigger_both : Mask → ℕ → IoManager → Option IoManager
trigger_both events fd m = do
  m1 ← trigger_if events.read fd reading m
  trigger_if events.write fd writing m1

abbrev pub mask_of : Option FdContext → Mask
mask_of none = record { read = false; write = false }
mask_of (some c) = c.events

-- `CO_LIB_ASSERT(fd_ctx->events == 0)`
abbrev pub assert_none : ℕ → Option IoManager → Option IoManager
assert_none fd none = none
assert_none fd (some m) = if is_none (mask_of (get_elem? m.contexts fd)) then some m else none

-- `cancelAll`. The size of the table is taken as it is, without the cast to `int`: each of its entries
-- is allocated, so that 2^31 of them are out of reach.
pub cancel_all : EpollCtl → ℕ → IoManager → Option (Bool × IoManager)
cancel_all ctl fd m = elim (get_elem? m.contexts fd) [
  | none ↦ refuse m
  | some c ↦
      if is_none c.events
      then refuse m
      else if not (ctl ctl_del fd (record { read = false; write = false }))
      then refuse m
      else accept (assert_none fd (trigger_both c.events fd m))
]

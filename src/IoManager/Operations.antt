-- ===== src/IoManager/Operations.antt =====
-- What the calls of src/iomanager.cc do to the registry of events.
use co_lib.Prelude.{
  ℕ, ◌≡◌, refl, subst, ◌⊎◌, inl, inr, Option, some, none, Bool, true, false, ◌&&◌, if◌then◌else◌,
  ◌==◌, get_elem?, set, sub_word, arith, Bool-cases, Option-cases,
}
use co_lib.Fiber.{Callback}
use co_lib.Scheduler.{Task, Scheduler, schedule}
use co_lib.IoManager.{
  mask_of, Event, reading, writing, Mask, is_in, without_event, EventContext, FdContext,
  empty_context, get_context, IoManager, EpollCtl, op_for, take_task, trigger_event, trigger_at,
  del_from_context, del_event, cancel_event,
}
use co_lib.IoManager.Contexts.{is_consistent, IsValid, all_sound-get}
use co_lib.IoManager.Registry.{
  same_event, event_at, changed, event_at-set, sound-look, removed-IsValid,
}

-- `m'` is `m` with one event changed.
pub record HasChanged (fd : ℕ) (e : Event) (now : Bool) (x : EventContext) (m m' : IoManager)
    : Type 0 where
  pub after :
      (j : ℕ) (f : Event)
      → event_at j f m'.contexts
        ≡ (if fd == j && same_event e f then (now, x) else event_at j f m.contexts)
  pub valid : IsValid m'

-- What waits for an event, as a task.
abbrev pub task_for : EventContext → Task
task_for x = (take_task x x.cb).0

consumed : (x : EventContext) → is_consistent true x ≡ true → (take_task x x.cb).1 ≡ empty_context
consumed x h = go x.scheduler x.fiber x.cb h
  where
    go :
        (b : Bool) (f : Option ℕ) (cb : Option Callback)
        → is_consistent true (record { scheduler = b; fiber = f; cb = cb }) ≡ true
        → (take_task (record { scheduler = b; fiber = f; cb = cb }) cb).1 ≡ empty_context
    go true none none h = absurd (ground arith)
    go true none (some c) h = refl
    go true (some f) none h = refl
    go true (some f) (some c) h = absurd (ground arith)
    go false f cb h = absurd (ground arith)

-- A registered event is triggered: what waits for it is scheduled, and it is not registered then.
pub record HasTriggered (fd : ℕ) (e : Event) (m m' : IoManager) : Type 0 where
  pub change : HasChanged fd e false empty_context m m'
  pub scheduled : m'.scheduler ≡ schedule (task_for (event_at fd e m.contexts).1) m.scheduler

module _ (fd : ℕ) (e : Event) (m : IoManager) (v : IsValid m) where
  pub trigger_at-HasTriggered :
      (c : FdContext)
      → get_elem? m.contexts fd ≡ some c
      → is_in e c.events ≡ true
      → (m' : IoManager) × (trigger_at fd e m ≡ some m') × HasTriggered fd e m m'
  unfolding trigger_at trigger_event
  trigger_at-HasTriggered c h present =
      let x : EventContext = get_context e c in
      let ok : is_consistent true x ≡ true =
        subst (λ b. is_consistent b x ≡ true) present
          (sound-look e c (all_sound-get m.contexts fd c v.sound h)) in
      let has_scheduler : x.scheduler ≡ true = ground arith in
      let s : Scheduler = schedule (task_for x) m.scheduler in
      (
        record m {
          scheduler = s;
          contexts = set m.contexts fd (changed e false empty_context c);
          pending = sub_word m.pending 1;
        },
        rw (h, present, has_scheduler, consumed x ok) refl,
        record {
          change = record {
            after = event_at-set m.contexts fd c e false empty_context h;
            valid = removed-IsValid m fd c e empty_context s v h present refl;
          };
          scheduled = rw h refl;
        },
      )

-- The events that are registered for a descriptor.
abbrev pub mask_at : ℕ → IoManager → Mask
mask_at fd m = mask_of (get_elem? m.contexts fd)

-- Whether `epoll_ctl` lets an event of a descriptor go.
abbrev pub lets_go : EpollCtl → ℕ → Event → IoManager → Bool
lets_go ctl fd e m = let left = without_event e (mask_at fd m) in ctl (op_for left) fd left

is_in-mask :
    (e : Event) (o : Option FdContext) → is_in e (mask_of o) ≡ true → (c : FdContext) × (o ≡ some c)
is_in-mask reading none h = absurd (ground arith)
is_in-mask writing none h = absurd (ground arith)
is_in-mask e (some c) h = (c, refl)

both : {a b : Bool} → (a && b) ≡ true → (a ≡ true) × (b ≡ true)
both {a} {b} h = (ground arith, ground arith)

module _ (ctl : EpollCtl) (fd : ℕ) (e : Event) (m : IoManager) where
  refused_del :
      (is_in e (mask_at fd m) && lets_go ctl fd e m) ≡ false → del_event ctl fd e m ≡ (false, m)
  unfolding del_event del_from_context
  refused_del h = elim (Option-cases (get_elem? m.contexts fd)) [
    | inl e' ↦ rw (e', del_event) refl
    | inr (c, e') ↦ elim (Bool-cases (is_in e c.events)) [
      | inr absent ↦ rw (e', del_event, absent) refl
      | inl present ↦
          let no : ctl (op_for (without_event e c.events)) fd (without_event e c.events) ≡ false =
            rw (e', present) at h in
          rw (e', del_event, present, no) refl
    ]
  ]

  refused_cancel :
      (is_in e (mask_at fd m) && lets_go ctl fd e m) ≡ false
      → cancel_event ctl fd e m ≡ some (false, m)
  unfolding cancel_event
  refused_cancel h = elim (Option-cases (get_elem? m.contexts fd)) [
    | inl e' ↦ rw (e', cancel_event) refl
    | inr (c, e') ↦ elim (Bool-cases (is_in e c.events)) [
      | inr absent ↦ rw (e', cancel_event, absent) refl
      | inl present ↦
          let no : ctl (op_for (without_event e c.events)) fd (without_event e c.events) ≡ false =
            rw (e', present) at h in
          rw (e', cancel_event, present, no) refl
    ]
  ]

  -- `delEvent` of a registered event that `epoll_ctl` lets go takes exactly this event off and
  -- schedules nothing; otherwise it returns `false` and changes nothing.
  pub del_event-HasChanged :
      IsValid m
      → (((is_in e (mask_at fd m) && lets_go ctl fd e m) ≡ true)
          × (m' : IoManager) × (del_event ctl fd e m ≡ (true, m'))
          × HasChanged fd e false empty_context m m'
          × (m'.scheduler ≡ m.scheduler))
        ⊎ (((is_in e (mask_at fd m) && lets_go ctl fd e m) ≡ false)
            × (del_event ctl fd e m ≡ (false, m)))
  unfolding del_event del_from_context
  del_event-HasChanged v = elim (Bool-cases (is_in e (mask_at fd m) && lets_go ctl fd e m)) [
    | inr h ↦ inr (h, refused_del h)
    | inl h ↦
        let (c, e') = is_in-mask e (get_elem? m.contexts fd) (ground arith) in
        let (present, granted) = both (rw e' at h) in
        inl (
          h,
          record m {
            contexts = set m.contexts fd (changed e false empty_context c);
            pending = sub_word m.pending 1;
          },
          rw (e', del_event, present, granted) refl,
          record {
            after = event_at-set m.contexts fd c e false empty_context e';
            valid = removed-IsValid m fd c e empty_context m.scheduler v e' present refl;
          },
          refl,
        )
  ]

  -- `cancelEvent` of a registered event that `epoll_ctl` lets go schedules exactly what waits for
  -- it, and takes exactly this event off; otherwise it returns `false` and changes nothing. No
  -- assertion fails.
  pub cancel_event-HasTriggered :
      IsValid m
      → (((is_in e (mask_at fd m) && lets_go ctl fd e m) ≡ true)
          × (m' : IoManager) × (cancel_event ctl fd e m ≡ some (true, m'))
          × HasTriggered fd e m m')
        ⊎ (((is_in e (mask_at fd m) && lets_go ctl fd e m) ≡ false)
            × (cancel_event ctl fd e m ≡ some (false, m)))
  unfolding cancel_event
  cancel_event-HasTriggered v = elim (Bool-cases (is_in e (mask_at fd m) && lets_go ctl fd e m)) [
    | inr h ↦ inr (h, refused_cancel h)
    | inl h ↦
        let (c, e') = is_in-mask e (get_elem? m.contexts fd) (ground arith) in
        let (present, granted) = both (rw e' at h) in
        let (m', t, done) = trigger_at-HasTriggered fd e m v c e' present in
        inl (h, m', rw (e', cancel_event, present, granted, t) refl, done)
  ]

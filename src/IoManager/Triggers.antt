-- ===== src/IoManager/Triggers.antt =====
-- Triggering the events of a descriptor in src/iomanager.cc, by `cancelAll` and by `idle`.
use co_lib.Prelude.{
  ℕ, ◌≡◌, refl, sym, ◌∙◌, ap, subst, ◌⊎◌, inl, inr, Option, some, none, Bool, true, false, not,
  ◌&&◌, if◌then◌else◌, ◌==◌, get_elem?, arith, Bool-cases, Option-cases,
}
use co_lib.Scheduler.{Scheduler, schedule}
use co_lib.IoManager.{
  mask_of, Event, reading, writing, Mask, is_in, is_none, EventContext, FdContext, empty_context,
  IoManager, EpollCtl, ctl_del, trigger_event, trigger_at, trigger_if, trigger_both, cancel_all,
  assert_none, accept,
}
use co_lib.IoManager.Contexts.{IsValid}
use co_lib.IoManager.Registry.{same_event, look_at, event_at}
use co_lib.IoManager.Operations.{task_for, trigger_at-HasTriggered, mask_at}

-- What is scheduled when an event of a descriptor is triggered, if it is.
abbrev pub scheduled_if : Bool → ℕ → Event → IoManager → Scheduler → Scheduler
scheduled_if b fd e m s = if b then schedule (task_for (event_at fd e m.contexts).1) s else s

-- `m'` is `m` after the events of a mask are triggered for a descriptor, READ before WRITE.
pub record HasTaken (events : Mask) (fd : ℕ) (m m' : IoManager) : Type 0 where
  pub after :
      (j : ℕ) (f : Event)
      → event_at j f m'.contexts
        ≡ (if fd == j && is_in f events then (false, empty_context) else event_at j f m.contexts)
  pub valid : IsValid m'
  pub scheduled :
      m'.scheduler
      ≡ scheduled_if events.write fd writing m (scheduled_if events.read fd reading m m.scheduler)

is_registered :
    (fd : ℕ) (e : Event) (o : Option FdContext)
    → (look_at e o).0 ≡ true
    → (c : FdContext) × (o ≡ some c) × (is_in e c.events ≡ true)
is_registered fd e none h = absurd (ground arith)
is_registered fd e (some c) h = (c, refl, h)

module _ (fd : ℕ) (e : Event) where
  trigger_if_lem :
      (b : Bool) (m : IoManager)
      → IsValid m
      → (b ≡ true → (event_at fd e m.contexts).0 ≡ true)
      → (m' : IoManager) × (trigger_if b fd e m ≡ some m')
        × IsValid m'
        × ((j : ℕ) (f : Event)
            → event_at j f m'.contexts ≡ (
                if b && (fd == j && same_event e f)
                then (false, empty_context)
                else event_at j f m.contexts))
        × (m'.scheduler ≡ scheduled_if b fd e m m.scheduler)
  unfolding trigger_if
  trigger_if_lem false m v h = (m, refl, v, λ j f. refl, refl)
  trigger_if_lem true m v h =
      let (c, found, present) = is_registered fd e (get_elem? m.contexts fd) (h refl) in
      let (m', t, done) = trigger_at-HasTriggered fd e m v c found present in
      (m', t, done.change.valid, done.change.after, done.scheduled)

same_fd : (fd : ℕ) → (fd == fd) ≡ true
same_fd fd = ground arith

module _ (fd : ℕ) (events : Mask) (m : IoManager) (v : IsValid m) where
  pub trigger_both-HasTaken :
      (events.read ≡ true → (event_at fd reading m.contexts).0 ≡ true)
      → (events.write ≡ true → (event_at fd writing m.contexts).0 ≡ true)
      → (m' : IoManager) × (trigger_both events fd m ≡ some m') × HasTaken events fd m m'
  unfolding trigger_both
  trigger_both-HasTaken hr hw =
      let (m1, t1, v1, after1, s1) = trigger_if_lem fd reading events.read m v hr in
      let kept : event_at fd writing m1.contexts ≡ event_at fd writing m.contexts =
        after1 fd writing ∙ not_writing events.read fd (event_at fd writing m.contexts) in
      let (m2, t2, v2, after2, s2) =
        trigger_if_lem fd writing events.write m1 v1 (λ h. ap (λ p. p.0) kept ∙ hw h) in
      (
        m2,
        rw (t1, t2) refl,
        record {
          after = λ j f.
              after2 j f
              ∙ ap
                  (λ p.
                    if events.write && (fd == j && same_event writing f)
                    then (false, empty_context)
                    else p)
                  (after1 j f)
              ∙ combine events.read events.write (fd == j) f (event_at j f m.contexts);
          valid = v2;
          scheduled =
              s2
              ∙ ap
                  (λ p. if events.write then schedule (task_for p.1) m1.scheduler else m1.scheduler)
                  kept
              ∙ ap (λ s. scheduled_if events.write fd writing m s) s1;
        },
      )
    where
      not_writing :
          (b : Bool) (fd : ℕ) (p : Bool × EventContext)
          → (if b && (fd == fd && same_event reading writing) then (false, empty_context) else p)
            ≡ p
      not_writing b fd p = rw (same_fd fd) (go b)
        where
          go : (b : Bool) → (if b && false then (false, empty_context) else p) ≡ p
          go true = refl
          go false = refl

      combine :
          (r w here : Bool) (f : Event) (p : Bool × EventContext)
          → (if w && (here && same_event writing f)
              then (false, empty_context)
              else (if r && (here && same_event reading f) then (false, empty_context) else p))
            ≡ (if here && is_in f (record { read = r; write = w })
                then (false, empty_context)
                else p)
      combine true true true reading p = refl
      combine true true true writing p = refl
      combine true false true reading p = refl
      combine true false true writing p = refl
      combine false true true reading p = refl
      combine false true true writing p = refl
      combine false false true reading p = refl
      combine false false true writing p = refl
      combine true true false reading p = refl
      combine true true false writing p = refl
      combine true false false reading p = refl
      combine true false false writing p = refl
      combine false true false reading p = refl
      combine false true false writing p = refl
      combine false false false reading p = refl
      combine false false false writing p = refl

look-mask : (f : Event) (o : Option FdContext) → (look_at f o).0 ≡ is_in f (mask_of o)
look-mask reading none = refl
look-mask writing none = refl
look-mask f (some c) = refl

none_if :
    (here b : Bool) (p : Bool × EventContext)
    → here ≡ true
    → p.0 ≡ b
    → (if here && b then (false, empty_context) else p).0 ≡ false
none_if true true p h e = refl
none_if true false p h e = e
none_if false b p h e = absurd (ground arith)

is_none-mask :
    (o : Option FdContext)
    → (look_at reading o).0 ≡ false
    → (look_at writing o).0 ≡ false
    → is_none (mask_of o) ≡ true
is_none-mask none hr hw = refl
is_none-mask (some c) hr hw = ground arith

-- After its events are taken, a descriptor has none: the last assertion of `cancelAll` holds.
assert_none_lem :
    (fd : ℕ) (m m' : IoManager)
    → HasTaken (mask_at fd m) fd m m'
    → assert_none fd (some m') ≡ some m'
assert_none_lem fd m m' done =
    let o : Option FdContext = get_elem? m'.contexts fd in
    let gone : (f : Event) → (look_at f o).0 ≡ false = λ f.
      ap (λ p. p.0) (done.after fd f)
      ∙ none_if (fd == fd) (is_in f (mask_at fd m)) (event_at fd f m.contexts) (same_fd fd)
          (look-mask f (get_elem? m.contexts fd)) in
    let empty : is_none (mask_of o) ≡ true = is_none-mask o (gone reading) (gone writing) in
    rw empty refl

-- `cancelAll` of a descriptor with a registered event that `epoll_ctl` takes off schedules exactly
-- what waits for its events, READ before WRITE, and takes all of them off; otherwise it returns
-- `false` and changes nothing. No assertion fails.
pub cancel_all-HasTaken :
    (ctl : EpollCtl) (fd : ℕ) (m : IoManager)
    → IsValid m
    → (((not (is_none (mask_at fd m)) && ctl ctl_del fd (record { read = false; write = false }))
          ≡ true)
        × (m' : IoManager) × (cancel_all ctl fd m ≡ some (true, m'))
        × HasTaken (mask_at fd m) fd m m')
      ⊎ (((not (is_none (mask_at fd m)) && ctl ctl_del fd (record { read = false; write = false }))
            ≡ false)
          × (cancel_all ctl fd m ≡ some (false, m)))
unfolding cancel_all
cancel_all-HasTaken ctl fd m v = elim (Option-cases (get_elem? m.contexts fd)) [
  | inl e ↦ inr (rw e refl, rw (e, cancel_all) refl)
  | inr (c, e) ↦ elim (Bool-cases (is_none c.events)) [
    | inl empty ↦ inr (rw (e, empty) refl, rw (e, cancel_all, empty) refl)
    | inr some_event ↦ elim (Bool-cases (ctl ctl_del fd (record { read = false; write = false }))) [
      | inr refused ↦
          inr (rw (e, some_event, refused) refl, rw (e, cancel_all, some_event, refused) refl)
      | inl granted ↦
          let (m', t, done) =
            trigger_both-HasTaken fd c.events m v (λ h. ap (λ o. (look_at reading o).0) e ∙ h)
              (λ h. ap (λ o. (look_at writing o).0) e ∙ h) in
          let taken : HasTaken (mask_at fd m) fd m m' =
            subst (λ k. HasTaken k fd m m') (ap mask_of (sym e)) done in
          inl (
            rw (e, some_event, granted) refl,
            m',
            rw (e, cancel_all, some_event, granted, t) (ap accept (assert_none_lem fd m m' taken)),
            taken,
          )
    ]
  ]
]

trigger_at-unregistered :
    (fd : ℕ) (e : Event) (m : IoManager)
    → (event_at fd e m.contexts).0 ≡ false
    → trigger_at fd e m ≡ none
unfolding trigger_at trigger_event
trigger_at-unregistered fd e m h = elim (Option-cases (get_elem? m.contexts fd)) [
  | inl e' ↦ rw e' refl
  | inr (c, e') ↦
      let absent : is_in e c.events ≡ false = ap (λ o. (look_at e o).0) (sym e') ∙ h in
      rw (e', absent) refl
]

-- To trigger both events of a descriptor fails when WRITE is not registered.
pub trigger_both-error :
    (fd : ℕ) (m : IoManager)
    → IsValid m
    → (event_at fd reading m.contexts).0 ≡ true
    → (event_at fd writing m.contexts).0 ≡ false
    → trigger_both (record { read = true; write = true }) fd m ≡ none
unfolding trigger_both trigger_if
trigger_both-error fd m v hr hw =
    let (m1, t1, v1, after1, s1) = trigger_if_lem fd reading true m v (λ h. hr) in
    let kept : (event_at fd writing m1.contexts).0 ≡ false =
      ap (λ p. p.0) (after1 fd writing) ∙ rw (same_fd fd) hw in
    rw t1 (trigger_at-unregistered fd writing m1 kept)

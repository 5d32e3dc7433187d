-- ===== src/IoManager/Idle/Reports.antt =====
-- What `idle` of src/iomanager.cc does with the events that `epoll_wait` reports, and how long it
-- waits for them.
use co_lib.Prelude.{
  ℕ, ◌-◌, ◌%◌, ◌≤◌, ◌<◌, min, as_int_small, negsuc, pos, ◌≡◌, refl, sym, ◌∙◌, ap, ◌⊎◌, inl, inr,
  some, none, Bool, true, false, ◌==◌, ltb, length, get_elem?, get-some, word_mod, arith,
  Bool-cases, Option-cases,
}
use co_lib.Timer.{no_timer}
use co_lib.IoManager.{mask_of, reading, writing, Mask, is_none, IoManager, EpollCtl, op_for}
use co_lib.IoManager.Contexts.{IsValid}
use co_lib.IoManager.Registry.{event_at}
use co_lib.IoManager.Operations.{mask_at}
use co_lib.IoManager.Triggers.{trigger_both-error, HasTaken, trigger_both-HasTaken}
use co_lib.IoManager.Idle.{
  of_pipe, of_fd, max_timeout, epoll_timeout, real_events, meet, minus, handle_real, handle_event,
}

-- A report of a descriptor that has a context names registered events only.
abbrev pub IsReported : ℕ → Mask → IoManager → Type 0
IsReported fd real m =
    (fd < length m.contexts)
    × (real.read ≡ true → (event_at fd reading m.contexts).0 ≡ true)
    × (real.write ≡ true → (event_at fd writing m.contexts).0 ≡ true)

-- A report of registered events is handled without a failed assertion: what waits for these events
-- is scheduled, READ before WRITE, and they are registered no more; or nothing changes, when
-- `epoll_ctl` fails or no event is reported.
pub handle_event-HasTaken :
    (ctl : EpollCtl) (fd : ℕ) (input output error : Bool) (m : IoManager)
    → IsValid m
    → IsReported fd (real_events input output error) m
    → (m' : IoManager) × (handle_event ctl (of_fd fd input output error) m ≡ some m')
      × (HasTaken (real_events input output error) fd m m' ⊎ (m' ≡ m))
unfolding handle_event handle_real
handle_event-HasTaken ctl fd input output error m v (lt, hr, hw) =
    let real : Mask = real_events input output error in
    let (c, e) = get-some m.contexts fd lt in
    elim (Bool-cases (is_none (meet c.events real))) [
      | inl nothing ↦ (m, rw (e, nothing) refl, inr refl)
      | inr some_event ↦
          elim (Bool-cases (ctl (op_for (minus c.events real)) fd (minus c.events real))) [
            | inr refused ↦ (m, rw (e, some_event, refused) refl, inr refl)
            | inl granted ↦
                let (m', t, done) = trigger_both-HasTaken fd real m v hr hw in
                (m', rw (e, some_event, granted, t) refl, inl done)
          ]
    ]

-- A report of EPOLLERR or EPOLLHUP for a descriptor that is registered for READ only fails the
-- assertion of `triggerEvent`, when `epoll_ctl` takes the descriptor off.
pub handle_event-error :
    (ctl : EpollCtl) (fd : ℕ) (m : IoManager)
    → IsValid m
    → mask_at fd m ≡ record { read = true; write = false }
    → ctl
        (op_for (record { read = false; write = false }))
        fd
        (record { read = false; write = false })
      ≡ true
    → handle_event ctl (of_fd fd false false true) m ≡ none
unfolding handle_event handle_real
handle_event-error ctl fd m v h granted = elim (Option-cases (get_elem? m.contexts fd)) [
  | inl e ↦ rw e refl
  | inr (c, e) ↦
      let is_mask : c.events ≡ record { read = true; write = false } = ap mask_of (sym e) ∙ h in
      let read : (event_at fd reading m.contexts).0 ≡ true = rw (e, is_mask) refl in
      let write : (event_at fd writing m.contexts).0 ≡ false = rw (e, is_mask) refl in
      rw (e, is_mask, granted) (trigger_both-error fd m v read write)
]

-- With a timer that is less than 2^31 ms away, `epoll_wait` gets the time to it, but three seconds at
-- most; with no timer it gets three seconds; with a timer 2^31 ms or more away, but less than 2^32, it
-- gets a number below 0, with which it waits without end.
pub epoll_timeout_lem :
    (next far : ℕ)
    → next < 2147483648
    → 2147483648 ≤ far
    → far < 4294967296
    → (epoll_timeout next ≡ pos (min max_timeout next))
      × (epoll_timeout no_timer ≡ pos max_timeout)
      × ((n : ℕ) × (epoll_timeout far ≡ negsuc n))
unfolding epoll_timeout
epoll_timeout_lem next far near not_near in_range = (
  (let other : (next == word_mod - 1) ≡ false = ground arith in
      elim (Bool-cases (ltb max_timeout next)) [
        | inl longer ↦
            let e : max_timeout ≡ min max_timeout next = ground arith in
            rw (other, as_int_small next near, longer) (ap pos e)
        | inr short ↦
            let e : next ≡ min max_timeout next = ground arith in
            rw (other, as_int_small next near, short) (ap pos e)
      ]),
  refl,
  (let other : (far == word_mod - 1) ≡ false = ground arith in
      let low : far % 4294967296 ≡ far = omega arith in
      let large : ltb far 2147483648 ≡ false = ground arith in
      (4294967295 - far, rw (other, low, large) refl)),
)

pub handle_pipe : (ctl : EpollCtl) (m : IoManager) → handle_event ctl of_pipe m ≡ some m
unfolding handle_event
handle_pipe ctl m = refl

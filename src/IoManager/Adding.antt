-- ===== src/IoManager/Adding.antt =====
-- `addEvent` of src/iomanager.cc, and the growth of the contexts.
use mathlib.Core.Option.{some-injective}
use co_lib.Prelude.{
  ℕ, zero, suc, ◌-◌, ◌*◌, ◌/◌, ◌%◌, ◌≤◌, ◌<◌, ◌≡◌, refl, sym, ◌∙◌, ap, subst, inl, inr, List, [],
  ◌∷◌, ◌++◌, Option, some, none, Bool, true, false, ◌&&◌, if◌then◌else◌, ◌==◌, ltb, length,
  get_elem?, set, get-some, replicate, take-all, word_mod, add_word, arith, Bool-cases,
}
use co_lib.Fiber.{Callback, is_exec}
use co_lib.Scheduler.{Scheduler}
use co_lib.IoManager.{
  Event, reading, writing, is_in, with_event, is_none, EventContext, FdContext, empty_context,
  new_context, get_context, is_empty_context, IoManager, Caller, EpollCtl, Op, ctl_add, ctl_mod,
  context_resize, fill_context, add_to_context, room_for, add_event,
}
use co_lib.IoManager.Contexts.{is_consistent, IsValid, all_sound-get, context_resize_lem}
use co_lib.IoManager.Registry.{
  same_event, look_at, event_at, changed, event_at-set, sound-look, added-IsValid,
}
use co_lib.IoManager.Operations.{HasChanged}

event_at-new :
    (k j : ℕ) (f : Event) → event_at j f (replicate k new_context) ≡ (false, empty_context)
event_at-new zero j f = refl
event_at-new (suc k) zero reading = refl
event_at-new (suc k) zero writing = refl
event_at-new (suc k) (suc j) f = event_at-new k j f

event_at-append :
    (cs : List FdContext) (k j : ℕ) (f : Event)
    → event_at j f (cs ++ replicate k new_context) ≡ event_at j f cs
event_at-append [] k j f = event_at-new k j f
event_at-append (c ∷ cs) k zero f = refl
event_at-append (c ∷ cs) k (suc j) f = event_at-append cs k j f

resized :
    (n : ℕ) (cs : List FdContext) (j : ℕ) (f : Event)
    → length cs ≤ n
    → event_at j f (context_resize n cs) ≡ event_at j f cs
unfolding context_resize
resized n cs j f h = rw (take-all n cs h) (event_at-append cs (n - length cs) j f)

-- Room for a descriptor: nothing is seen of it from outside.
pub record HasRoom (fd : ℕ) (m m' : IoManager) : Type 0 where
  pub context : FdContext
  pub found : get_elem? m'.contexts fd ≡ some context
  pub same : (j : ℕ) (f : Event) → event_at j f m'.contexts ≡ event_at j f m.contexts
  pub valid : IsValid m'
  pub scheduler : m'.scheduler ≡ m.scheduler

room_for-HasRoom : (fd : ℕ) (m : IoManager) → IsValid m → HasRoom fd m (room_for fd m)
room_for-HasRoom fd m v = elim (Bool-cases (ltb fd (length m.contexts))) [
  | inl h ↦
      let (c, e) = get-some m.contexts fd (ground arith) in
      rw h (record { context = c; found = e; same = λ j f. refl; valid = v; scheduler = refl })
  | inr h ↦
      let le : length m.contexts ≤ fd * 3 / 2 = room_ok fd m v (ground arith) in
      let (sound, count, size, kept) = context_resize_lem (fd * 3 / 2) m.contexts le v.sound in
      let (c, e) =
        get-some (context_resize (fd * 3 / 2) m.contexts) fd
          (subst (λ k. fd < k) (sym size) (bigger fd m v (ground arith))) in
      rw h (record {
        context = c;
        found = e;
        same = λ j f. resized (fd * 3 / 2) m.contexts j f le;
        valid = record {
          sound = sound;
          counted = v.counted ∙ ap (λ k. k % word_mod) (sym count);
          room = omega (arith, v.room);
        };
        scheduler = refl;
      })
]
  where
    room_ok :
        (fd : ℕ) (m : IoManager)
        → IsValid m
        → length m.contexts ≤ fd
        → length m.contexts ≤ fd * 3 / 2
    room_ok fd m v h = omega arith

    bigger : (fd : ℕ) (m : IoManager) → IsValid m → length m.contexts ≤ fd → fd < fd * 3 / 2
    bigger fd m v h = omega (arith, v.room)

fill_context-consistent :
    (caller : Caller) (cb : Option Callback) (s : Scheduler) (x : EventContext)
    → caller.in_scheduler ≡ true
    → fill_context caller cb s ≡ some x
    → is_consistent true x ≡ true
unfolding fill_context
fill_context-consistent caller (some c) s x h e =
    let e' : record { scheduler = caller.in_scheduler; fiber = none; cb = some c } ≡ x =
      some-injective _ _ e in
    subst (λ y. is_consistent true y ≡ true) e' (rw h refl)
fill_context-consistent caller none s x h e =
    elim (Bool-cases (is_exec (s.heap caller.fiber).state)) [
      | inl t ↦
          let e' : record { scheduler = caller.in_scheduler; fiber = some caller.fiber; cb = none }
              ≡ x =
            some-injective _ _ (rw t at e) in
          subst (λ y. is_consistent true y ≡ true) e' (rw h refl)
      | inr f ↦ let z = rw f at e in absurd (cc)
    ]

module _ (ctl : EpollCtl) (caller : Caller) (fd : ℕ) (e : Event) (cb : Option Callback) where
  -- What `addEvent` leaves behind: the event registered with `x`, or nothing changed.
  abbrev pub HasAdded : EventContext → IoManager → Bool → IoManager → Type 0
  HasAdded x m true m' = HasChanged fd e true x m m'
  HasAdded x m false m' =
      ((j : ℕ) (f : Event) → event_at j f m'.contexts ≡ event_at j f m.contexts) × IsValid m'

  -- `addEvent` of an event that is not registered, by a caller whose thread has a scheduler, fails
  -- no assertion: it registers exactly this event for the callback or the calling fiber and returns
  -- 0, or changes no event and returns -1, when `epoll_ctl` fails. Nothing is scheduled.
  pub add_event-HasAdded :
      (m : IoManager) (x : EventContext)
      → IsValid m
      → (event_at fd e m.contexts).0 ≡ false
      → caller.in_scheduler ≡ true
      → fill_context caller cb m.scheduler ≡ some x
      → (b : Bool) × (m' : IoManager) × (add_event ctl caller fd e cb m ≡ some (b, m'))
        × (m'.scheduler ≡ m.scheduler)
        × HasAdded x m b m'
  unfolding add_event add_to_context
  add_event-HasAdded m x v absent_m h filled =
      let r : HasRoom fd m (room_for fd m) = room_for-HasRoom fd m v in
      let c : FdContext = r.context in
      let absent : is_in e c.events ≡ false =
        ap (λ o. (look_at e o).0) (sym r.found) ∙ ap (λ p. p.0) (r.same fd e) ∙ absent_m in
      let empty : is_empty_context (get_context e c) ≡ true =
        subst (λ b. is_consistent b (get_context e c) ≡ true) absent
          (sound-look e c (all_sound-get (room_for fd m).contexts fd c r.valid.sound r.found)) in
      let filled' : fill_context caller cb (room_for fd m).scheduler ≡ some x =
        ap (λ s. fill_context caller cb s) r.scheduler ∙ filled in
      let op : Op = if is_none c.events then ctl_add else ctl_mod in
      elim (Bool-cases (ctl op fd (with_event e c.events))) [
        | inr refused ↦ (
          false,
          room_for fd m,
          rw (r.found, absent, refused) refl,
          r.scheduler,
          (r.same, r.valid),
        )
        | inl granted ↦ (
          true,
          record (room_for fd m) {
            pending = add_word (room_for fd m).pending 1;
            contexts = set (room_for fd m).contexts fd (changed e true x c);
          },
          rw (r.found, absent, granted, empty, filled') refl,
          r.scheduler,
          record {
            after = λ j f.
                event_at-set (room_for fd m).contexts fd c e true x r.found j f
                ∙ ap (λ p. if fd == j && same_event e f then (true, x) else p) (r.same j f);
            valid =
                added-IsValid (room_for fd m) fd c e x (room_for fd m).scheduler r.valid r.found
                  absent (fill_context-consistent caller cb m.scheduler x h filled);
          },
        )
      ]

  -- `addEvent` of an event that is registered fails its assertion.
  pub add_event-registered :
      (m : IoManager)
      → IsValid m
      → (event_at fd e m.contexts).0 ≡ true
      → add_event ctl caller fd e cb m ≡ none
  unfolding add_event add_to_context
  add_event-registered m v present_m =
      let r : HasRoom fd m (room_for fd m) = room_for-HasRoom fd m v in
      let present : is_in e r.context.events ≡ true =
        ap (λ o. (look_at e o).0) (sym r.found) ∙ ap (λ p. p.0) (r.same fd e) ∙ present_m in
      rw (r.found, present) refl

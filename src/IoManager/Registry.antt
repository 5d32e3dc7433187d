-- ===== src/IoManager/Registry.antt =====
-- The registry of events of src/iomanager.cc, seen from outside: for each descriptor and event,
-- whether it is registered and what waits for it.
use co_lib.Prelude.{
  ℕ, suc, ◌%◌, ◌≡◌, ◌≢◌, refl, subst, inl, inr, List, Option, some, none, Bool, true, false, ◌&&◌,
  if◌then◌else◌, ◌==◌, get_elem?, set, get-set_same, get-set_other, length-set, word_mod, add_word,
  sub_word, arith, Bool-cases,
}
use co_lib.Scheduler.{Scheduler}
use co_lib.IoManager.{
  Event, reading, writing, is_in, with_event, without_event, EventContext, FdContext, empty_context,
  get_context, put_context, IoManager,
}
use co_lib.IoManager.Contexts.{
  registered, count_events, is_consistent, is_sound, IsValid, count-set, all_sound-get,
  all_sound-set,
}

abbrev pub same_event : Event → Event → Bool
same_event reading reading = true
same_event reading writing = false
same_event writing reading = false
same_event writing writing = true

-- An event of a context: whether it is registered, and what waits for it.
abbrev pub look : Event → FdContext → Bool × EventContext
look e c = (is_in e c.events, get_context e c)

abbrev pub look_at : Event → Option FdContext → Bool × EventContext
look_at e none = (false, empty_context)
look_at e (some c) = look e c

abbrev pub event_at : ℕ → Event → List FdContext → Bool × EventContext
event_at fd e cs = look_at e (get_elem? cs fd)

abbrev pub changed : Event → Bool → EventContext → FdContext → FdContext
changed e now x c = record (put_context e x c) {
  events = if now then with_event e c.events else without_event e c.events;
}

look-changed :
    (e f : Event) (now : Bool) (x : EventContext) (c : FdContext)
    → look f (changed e now x c) ≡ (if same_event e f then (now, x) else look f c)
look-changed reading reading true x c = refl
look-changed reading reading false x c = refl
look-changed reading writing true x c = refl
look-changed reading writing false x c = refl
look-changed writing reading true x c = refl
look-changed writing reading false x c = refl
look-changed writing writing true x c = refl
look-changed writing writing false x c = refl

pub event_at-set :
    (cs : List FdContext) (fd : ℕ) (c : FdContext) (e : Event) (now : Bool) (x : EventContext)
    → get_elem? cs fd ≡ some c
    → (j : ℕ) (f : Event)
    → event_at j f (set cs fd (changed e now x c))
      ≡ (if fd == j && same_event e f then (now, x) else event_at j f cs)
event_at-set cs fd c e now x h j f = elim (Bool-cases (fd == j)) [
  | inl same ↦
      let k : fd ≡ j = ground arith in
      subst
        (λ i.
          event_at i f (set cs fd (changed e now x c))
          ≡ (if fd == i && same_event e f then (now, x) else event_at i f cs))
        k
        (let s : (fd == fd) ≡ true = ground arith in
          rw (s, get-set_same cs fd c (changed e now x c) h, h) (look-changed e f now x c))
  | inr other ↦
      let apart : fd ≢ j = ground arith in
      rw (other, get-set_other cs fd j (changed e now x c) apart) refl
]

registered-with :
    (e : Event) (x : EventContext) (c : FdContext)
    → is_in e c.events ≡ false
    → registered (changed e true x c) ≡ suc (registered c)
registered-with reading x c h = rw h (omega arith)
registered-with writing x c h = rw h (omega arith)

registered-without :
    (e : Event) (x : EventContext) (c : FdContext)
    → is_in e c.events ≡ true
    → suc (registered (changed e false x c)) ≡ registered c
registered-without reading x c h = rw h (omega arith)
registered-without writing x c h = rw h (omega arith)

sound-changed :
    (e : Event) (now : Bool) (x : EventContext) (c : FdContext)
    → is_sound c ≡ true
    → is_consistent now x ≡ true
    → is_sound (changed e now x c) ≡ true
sound-changed reading true x c s h = ground arith
sound-changed reading false x c s h = ground arith
sound-changed writing true x c s h = ground arith
sound-changed writing false x c s h = ground arith

pub sound-look :
    (e : Event) (c : FdContext)
    → is_sound c ≡ true
    → is_consistent (is_in e c.events) (get_context e c) ≡ true
sound-look reading c s = ground arith
sound-look writing c s = ground arith

-- A change of one event of a context that keeps the registry valid.
module _ (m : IoManager) (fd : ℕ) (c : FdContext) (e : Event) (x : EventContext)
    (s : Scheduler) where
  pub added-IsValid :
      IsValid m
      → get_elem? m.contexts fd ≡ some c
      → is_in e c.events ≡ false
      → is_consistent true x ≡ true
      → IsValid (record m {
        scheduler = s;
        contexts = set m.contexts fd (changed e true x c);
        pending = add_word m.pending 1;
      })
  added-IsValid v h absent ok = record {
    sound =
        all_sound-set m.contexts fd _ v.sound
          (sound-changed e true x c (all_sound-get m.contexts fd c v.sound h) ok);
    counted =
        let p : m.pending ≡ count_events m.contexts % word_mod = v.counted in
        omega
          (arith, count-set m.contexts fd c (changed e true x c) h, registered-with e x c absent);
    room = omega (arith, v.room, length-set m.contexts fd (changed e true x c));
  }

  pub removed-IsValid :
      IsValid m
      → get_elem? m.contexts fd ≡ some c
      → is_in e c.events ≡ true
      → is_consistent false x ≡ true
      → IsValid (record m {
        scheduler = s;
        contexts = set m.contexts fd (changed e false x c);
        pending = sub_word m.pending 1;
      })
  removed-IsValid v h present ok = record {
    sound =
        all_sound-set m.contexts fd _ v.sound
          (sound-changed e false x c (all_sound-get m.contexts fd c v.sound h) ok);
    counted =
        let p : m.pending ≡ count_events m.contexts % word_mod = v.counted in
        omega (
          arith,
          count-set m.contexts fd c (changed e false x c) h,
          registered-without e x c present,
        );
    room = omega (arith, v.room, length-set m.contexts fd (changed e false x c));
  }

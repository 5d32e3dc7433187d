-- ===== src/Scheduler/Valid.antt =====
-- What holds between two passes of the loop of src/scheduler.cc, and a queue without one of its tasks.
use co_lib.Prelude.{
  ℕ, ◌+◌, ◌≤◌, ◌<◌, ◌≡◌, refl, ap, sym, ◌∙◌, ◌⊎◌, List, ◌∷◌, ◌++◌, Option, some, none, Bool, true,
  false, not, ◌&&◌, ◌||◌, if◌then◌else◌, arith, add_word,
}
use co_lib.Fiber.{FiberState, is_over, is_exec, is_term, new_fiber}
use co_lib.Fiber.Orderly.{live}
use co_lib.Scheduler.{
  Task, Scheduler, Worker, Pass, goes_on, breaks, fails, tickle, is_given, take_off,
}
use co_lib.Scheduler.Queue.{all}
use co_lib.Scheduler.Sound.{is_of, count, is_fit, IsSound, count-append, all-append}

-- The fiber that the thread keeps for callbacks is new, and does not stand in the queue.
abbrev pub HasSlot : Worker → Scheduler → Type 0
HasSlot w s =
    (w.cb_fiber ≡ none)
    ⊎ ((f : ℕ) × (w.cb_fiber ≡ some f)
        × (s.heap f ≡ new_fiber none)
        × (count f s.fibers ≡ 0)
        × (f < s.size))

abbrev pub may_idle : FiberState → Bool
may_idle state = is_term state || not (is_exec state || is_over state)

pub record IsValid (w : Worker) (s : Scheduler) : Type 0 where
  pub sound : IsSound s
  pub slot : HasSlot w s
  pub idle : may_idle w.idle_state ≡ true

-- A pass that leaves a valid state, or ends the loop, and does not fail.
abbrev pub IsSafe : Pass → Type 0
IsSafe (goes_on w s) = IsValid w s
IsSafe (breaks s) = IsSound s
IsSafe fails = false ≡ true

pub take_off_lem :
    (tickle_me : Bool) (t : Option Task) (ts : List Task) (s : Scheduler)
    → (n : ℕ) × (take_off (record { tickle_me = tickle_me; task = t; fibers = ts }) s ≡ record s {
      fibers = ts;
      active = if is_given t then add_word s.active 1 else s.active;
      tickles = n;
    })
unfolding take_off tickle
take_off_lem true t ts s = (_, refl)
take_off_lem false t ts s = (_, refl)

-- The queue without one of its tasks.
module _ (before : List Task) (t : Task) (after : List Task) where
  pub count-split :
      (f : ℕ)
      → count f (before ++ (t ∷ after))
        ≡ count f (before ++ after) + (if is_of f t.fiber then 1 else 0)
  count-split f = omega (arith, count-append f before (t ∷ after), count-append f before after)

  pub fit-split :
      all is_fit (before ++ (t ∷ after)) ≡ true
      → (all is_fit (before ++ after) ≡ true) × (is_fit t ≡ true)
  fit-split h =
      let e : all is_fit (before ++ (t ∷ after))
          ≡ (all is_fit before && (is_fit t && all is_fit after)) =
        all-append is_fit before (t ∷ after) in
      let e' : all is_fit (before ++ after) ≡ (all is_fit before && all is_fit after) =
        all-append is_fit before after in
      (ground arith, ground arith)

  -- A sound scheduler is sound without the task.
  pub taken-IsSound :
      (s : Scheduler) (n a : ℕ)
      → s.fibers ≡ before ++ (t ∷ after)
      → IsSound s
      → IsSound (record s { fibers = before ++ after; active = a; tickles = n })
  taken-IsSound s n a e sound = record {
    rest = sound.rest;
    order = sound.order;
    fit = (fit-split (ap (all is_fit) (sym e) ∙ sound.fit)).0;
    once = λ f.
        let le : count f s.fibers ≤ live (s.heap f) = sound.once f in
        let same : count f s.fibers ≡ count f (before ++ (t ∷ after)) = ap (count f) e in
        omega (arith, count-split f);
    fresh = λ f h.
        let z : count f s.fibers ≡ 0 = sound.fresh f h in
        let same : count f s.fibers ≡ count f (before ++ (t ∷ after)) = ap (count f) e in
        omega (arith, count-split f);
  }

-- ===== src/Scheduler/Callbacks.antt =====
-- A callback in the loop of src/scheduler.cc, which runs in a fiber that the loop keeps for the next
-- callback, if it can.
use co_lib.Prelude.{
  ℕ, suc, ◌≤◌, ◌≡◌, refl, ap, ◌∙◌, ◌⊎◌, inl, inr, List, map, Option, some, none, true, false, ◌||◌,
  if◌then◌else◌, arith, Bool-cases, ◌>>=◌,
}
use co_lib.Fiber.{Fiber, Request, Callback, is_over, is_init, new_fiber, reset, swap_in, set_hold}
use co_lib.Fiber.Lifecycle.{IsAtRest, IsBack, new_one, swap_in-IsAtRest, reset-IsAtRest}
use co_lib.Scheduler.{
  Scheduler, Worker, put, switch_to, release, after_cb, keep_fiber, cb_fiber_for, run_cb,
}
use co_lib.Scheduler.Round.{HasRun, task_of, queued, switch_to-queued, same}

-- The fiber that a thread keeps for callbacks is new and has none.
abbrev pub IsFree : Worker → Scheduler → Type 0
IsFree w s = (w.cb_fiber ≡ none) ⊎ ((f : ℕ) × (w.cb_fiber ≡ some f) × (s.heap f ≡ new_fiber none))

after_cb-over :
    (f : ℕ) (w : Worker) (s : Scheduler)
    → IsBack (s.heap f)
    → is_over (s.heap f).state ≡ true
    → after_cb f w s ≡ some (record w { cb_fiber = some f }, put f (new_fiber none) s)
unfolding after_cb keep_fiber set_hold
after_cb-over f w s back h =
    let rest : IsAtRest (s.heap f) = rw h at back.0 in
    let e : reset none (s.heap f) ≡ some (new_fiber none) =
      reset-IsAtRest none (s.heap f) rest ∙ rw h refl in
    rw (back.1, h, e) refl

after_cb-held :
    (f : ℕ) (w : Worker) (s : Scheduler)
    → IsBack (s.heap f)
    → is_over (s.heap f).state ≡ false
    → after_cb f w s ≡ some (record w { cb_fiber = none }, put f (set_hold (s.heap f)) s)
unfolding after_cb set_hold
after_cb-held f w s back h = rw (back.1, h) refl

-- The fiber `f` that a callback gets: the one that the thread keeps, or the next new one.
abbrev pub IsChosen : ℕ → Worker → Scheduler → ℕ → Type 0
IsChosen f w s size =
    ((w.cb_fiber ≡ some f) × (size ≡ s.size))
    ⊎ ((w.cb_fiber ≡ none) × (f ≡ s.size) × (size ≡ suc s.size))

-- How the loop leaves the fiber of a callback that came back as `g`.
abbrev pub left_as : Fiber → Fiber
left_as g = if is_over g.state then new_fiber none else set_hold g

abbrev pub kept : ℕ → Fiber → Option ℕ
kept f g = if is_over g.state then some f else none

pub at_rest : (cb : Option Callback) → IsAtRest (new_fiber cb)
unfolding new_fiber
at_rest cb = new_one cb

pub not_over : (cb : Option Callback) → is_over (new_fiber cb).state ≡ false
unfolding new_fiber
not_over cb = refl

reset_allowed :
    {r : Option Fiber}
    → (if is_over (new_fiber none).state || is_init (new_fiber none).state then r else none) ≡ r
unfolding new_fiber
reset_allowed = refl

module _ (c : Callback) (w : Worker) where
  -- A run of the callback in fiber `f`, which is new.
  run_in :
      (f : ℕ) (s : Scheduler)
      → s.heap f ≡ new_fiber (some c)
      → (g : Fiber) × (asked : List Request) × (n : ℕ) × (swap_in (new_fiber (some c))
          ≡ some (g, asked))
        × IsBack g
        × ((switch_to f s >>= λ s1. after_cb f w (release s1))
            ≡ some (
              record w { cb_fiber = kept f g },
              put f (left_as g) (release (queued (map (task_of f) asked) n (put f g s))),
            ))
  run_in f s new =
      let (g, asked, e, back) =
        swap_in-IsAtRest (new_fiber (some c)) (at_rest (some c)) (not_over (some c)) in
      let (n, e') = switch_to-queued f s g asked (rw new e) in
      let s2 : Scheduler = release (queued (map (task_of f) asked) n (put f g s)) in
      let is_g : s2.heap f ≡ g = rw (same f) refl in
      let back' : IsBack (s2.heap f) = rw is_g back in
      (
        g,
        asked,
        n,
        e,
        back,
        rw e' (elim (Bool-cases (is_over g.state)) [
          | inl o ↦ rw o (after_cb-over f w s2 back' (rw is_g o))
          | inr o ↦ rw o (
              after_cb-held f w s2 back' (rw is_g o)
              ∙ ap (λ k. some (record w { cb_fiber = none }, put f (set_hold k) s2)) is_g)
        ]),
      )

  -- The scheduler with the callback in fiber `f`, and `m` fibers.
  abbrev loaded : ℕ → ℕ → Scheduler → Scheduler
  loaded f m s = put f (new_fiber (some c)) (record s { size = m })

  new_for_none :
      (s : Scheduler) → cb_fiber_for c none s ≡ some (s.size, loaded s.size (suc s.size) s)
  unfolding cb_fiber_for
  new_for_none s = refl

  new_for_some :
      (s : Scheduler) (f : ℕ)
      → s.heap f ≡ new_fiber none
      → cb_fiber_for c (some f) s ≡ some (f, loaded f s.size s)
  unfolding cb_fiber_for
  new_for_some s f e =
      let e' : reset (some c) (new_fiber none) ≡ some (new_fiber (some c)) =
        reset-IsAtRest (some c) (new_fiber none) (at_rest none) ∙ reset_allowed in
      rw (e, e') refl

  run_cb_lem :
      (s s0 : Scheduler) (f : ℕ)
      → cb_fiber_for c w.cb_fiber s ≡ some (f, s0)
      → run_cb c w s ≡ (switch_to f s0 >>= λ s1. after_cb f w (release s1))
  unfolding run_cb
  run_cb_lem s s0 f e = rw e refl

  -- What the loop has done with the callback in fiber `f`.
  abbrev pub HasCalled : Scheduler → Type 0
  HasCalled s =
      (f : ℕ) × (g : Fiber) × (asked : List Request) × (w' : Worker) × (s' : Scheduler) × (swap_in
          (new_fiber (some c))
        ≡ some (g, asked))
      × (run_cb c w s ≡ some (w', s'))
      × HasRun f (left_as g) asked s s'
      × (w' ≡ record w { cb_fiber = kept f g })
      × IsBack g
      × IsFree w' s'
      × IsChosen f w s s'.size

  finish :
      (s : Scheduler) (f m : ℕ)
      → s.size ≤ m
      → IsChosen f w s m
      → cb_fiber_for c w.cb_fiber s ≡ some (f, loaded f m s)
      → HasCalled s
  finish s f m le chosen e =
      let s0 : Scheduler = loaded f m s in
      let (g, asked, n, swapped, back, e') = run_in f s0 (rw (same f) refl) in
      (
        f,
        g,
        asked,
        record w { cb_fiber = kept f g },
        put f (left_as g) (release (queued (map (task_of f) asked) n (put f g s0))),
        swapped,
        run_cb_lem s s0 f e ∙ e',
        record {
          fibers = refl;
          active = refl;
          size = le;
          here = rw (same f) refl;
          elsewhere = λ j d. rw d refl;
          flags = (refl, refl);
        },
        refl,
        back,
        elim (Bool-cases (is_over g.state)) [
          | inl o ↦ inr (f, rw o refl, rw (same f, o) refl)
          | inr o ↦ inl (rw o refl)
        ],
        chosen,
      )

  -- The loop handles a callback, given the fiber that it keeps or a new one, without a failed
  -- assertion: the callback runs to its first switch as in a new fiber, what it asks for is at the
  -- end of the queue in its order, no other fiber is touched, the counter of active threads goes
  -- down by one, and the fiber is kept for the next callback exactly if it is over.
  pub run_cb-HasRun : (s : Scheduler) → IsFree w s → HasCalled s
  run_cb-HasRun s (inl e) =
      finish s s.size (suc s.size) (omega arith) (inr (e, refl, refl)) (rw e (new_for_none s))
  run_cb-HasRun s (inr (f, e, is_new)) =
      finish s f s.size (omega arith) (inl (e, refl)) (rw e (new_for_some s f is_new))

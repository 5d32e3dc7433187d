-- ===== src/Scheduler/Branches.antt =====
-- The three branches of the loop of src/scheduler.cc, from a valid state.
use co_lib.Prelude.{
  ℕ, ◌≤◌, ◌<◌, ◌≡◌, refl, subst, ap, sym, ◌∙◌, ◌==◌, inl, inr, List, map, some, none, true, false,
  ◌||◌, arith, Bool-cases,
}
use co_lib.Fiber.{Fiber, Callback, Request, is_over, is_exec, is_term, new_fiber, set_hold}
use co_lib.Fiber.Lifecycle.{IsAtRest, IsBack}
use co_lib.Fiber.Orderly.{orderly_fiber, self_count, live, LeavesOrder, swap_in-LeavesOrder}
use co_lib.Scheduler.{Scheduler, Worker, pass_of, run_fiber, run_cb, run_idle, is_stopping}
use co_lib.Scheduler.Round.{task_of, run_fiber-HasRun}
use co_lib.Scheduler.Callbacks.{at_rest, not_over, IsFree, IsChosen, left_as, run_cb-HasRun}
use co_lib.Scheduler.Sound.{count, count-append, count-other, count-same, HasRun-IsSound}
use co_lib.Scheduler.Valid.{HasSlot, IsValid, IsSafe}

pub run_fiber-IsSafe :
    (f : ℕ) (w : Worker) (s : Scheduler)
    → IsValid w s
    → is_over (s.heap f).state ≡ false
    → count f s.fibers ≡ 0
    → f < s.size
    → ((k : ℕ) → w.cb_fiber ≡ some k → (k == f) ≡ false)
    → IsSafe (pass_of (run_fiber f w s))
unfolding pass_of
run_fiber-IsSafe f w s valid h absent lt apart =
    let (g, asked, s', e, e', ran, at_rest) = run_fiber-HasRun f w s (valid.sound.rest f) h in
    let (order, oa, le) =
      swap_in-LeavesOrder (s.heap f) g asked (valid.sound.rest f) h (valid.sound.order f) e in
    rw e' (record {
      sound =
          HasRun-IsSound f (set_hold g) asked s s' valid.sound ran absent (lt' s' ran.size)
            (subst IsAtRest ran.here at_rest) order oa le;
      slot = elim valid.slot [
        | inl none_kept ↦ inl none_kept
        | inr (k, ek, is_new, absent_k, lt_k) ↦ inr (
          k,
          ek,
          ran.elsewhere k (apart k ek) ∙ is_new,
          ap (count k) ran.fibers
              ∙ count-append k s.fibers (map (task_of f) asked)
              ∙ omega (arith, count-other k f asked (apart k ek)),
          omega (arith, ran.size),
        )
      ];
      idle = valid.idle;
    })
  where
    lt' : (s' : Scheduler) → s.size ≤ s'.size → f < s'.size
    lt' s' le = omega arith

-- The fiber of a callback does not stand in the queue.
pub chosen-absent :
    (f : ℕ) (w : Worker) (s : Scheduler) (size : ℕ)
    → IsValid w s
    → IsChosen f w s size
    → (count f s.fibers ≡ 0) × (f < size)
chosen-absent f w s size valid (inr (e, next, grown)) =
    (valid.sound.fresh f (omega arith), omega arith)
chosen-absent f w s size valid (inl (e, same)) = elim valid.slot [
  | inl none_kept ↦ absurd (cc)
  | inr (k, ek, is_new, absent, lt) ↦
      let e' : k ≡ f = cc in (subst (λ j. count j s.fibers ≡ 0) e' absent, omega arith)
]

pub over-self_count :
    (g : Fiber) (asked : List Request)
    → LeavesOrder (g, asked)
    → is_over g.state ≡ true
    → self_count asked ≡ 0
unfolding set_hold
over-self_count g asked (order, oa, le) o =
    let z : self_count asked ≤ 0 = rw (o, o) at le in omega arith

pub new_fiber_order : (orderly_fiber (new_fiber none) ≡ true)
unfolding new_fiber
new_fiber_order = refl

pub left_as-order :
    (g : Fiber) (asked : List Request)
    → IsBack g
    → LeavesOrder (g, asked)
    → IsAtRest (left_as g)
      × (orderly_fiber (left_as g) ≡ true)
      × (self_count asked ≤ live (left_as g))
left_as-order g asked back (order, oa, le) = elim (Bool-cases (is_over g.state)) [
  | inl o ↦
      let z : self_count asked ≡ 0 = over-self_count g asked (order, oa, le) o in
      rw o (at_rest none, new_fiber_order, omega arith)
  | inr o ↦ rw o (back.0, order, le)
]

pub slot-IsFree : (w : Worker) (s : Scheduler) → HasSlot w s → IsFree w s
slot-IsFree w s (inl e) = inl e
slot-IsFree w s (inr (f, e, is_new, absent, lt)) = inr (f, e, is_new)

pub run_cb-IsSafe :
    (c : Callback) (w : Worker) (s : Scheduler)
    → IsValid w s
    → orderly_fiber (new_fiber (some c)) ≡ true
    → IsSafe (pass_of (run_cb c w s))
unfolding pass_of
run_cb-IsSafe c w s valid oc =
    let (f, g, asked, w', s', e, e', ran, ew, back, free, chosen) =
      run_cb-HasRun c w s (slot-IsFree w s valid.slot) in
    let (absent, lt) = chosen-absent f w s s'.size valid chosen in
    let (order0, oa, le0) =
      swap_in-LeavesOrder (new_fiber (some c)) g asked (at_rest (some c)) (not_over (some c)) oc
        e in
    let (rest, order, le) = left_as-order g asked back (order0, oa, le0) in
    rw e' (
      subst (λ k. IsValid k s') (sym ew)
        (record {
          sound =
              HasRun-IsSound f (left_as g) asked s s' valid.sound ran absent lt rest order oa le;
          slot = elim (Bool-cases (is_over g.state)) [
            | inl o ↦
                let z : self_count asked ≡ 0 = over-self_count g asked (order0, oa, le0) o in
                inr (
                  f,
                  rw o refl,
                  ran.here ∙ rw o refl,
                  ap (count f) ran.fibers
                      ∙ count-append f s.fibers (map (task_of f) asked)
                      ∙ omega (arith, count-same f asked),
                  lt,
                )
            | inr o ↦ inl (rw o refl)
          ];
          idle = valid.idle;
        }))

pub run_idle-IsSafe : (w : Worker) (s : Scheduler) → IsValid w s → IsSafe (run_idle w s)
unfolding run_idle
run_idle-IsSafe w s valid = elim (Bool-cases (is_term w.idle_state)) [
  | inl e ↦ rw e valid.sound
  | inr e ↦
      let alive : (is_exec w.idle_state || is_over w.idle_state) ≡ false = ground arith in
      rw (e, alive)
        (record {
          sound = record {
            rest = valid.sound.rest;
            order = valid.sound.order;
            fit = valid.sound.fit;
            once = valid.sound.once;
            fresh = valid.sound.fresh;
          };
          slot = valid.slot;
          idle = elim (Bool-cases (is_stopping s)) [ inl t ↦ rw t refl | inr t ↦ rw t refl ];
        })
]

-- ===== src/Scheduler/Safety.antt =====
-- The loop of src/scheduler.cc in one thread never fails an assertion, as long as the callbacks ask
-- for their own fibers the way the loop expects.
use co_lib.Prelude.{
  ℕ, zero, suc, ◌+◌, ◌≤◌, ◌<◌, ◌≡◌, refl, subst, ap, sym, ◌∙◌, ◌⊎◌, ◌==◌, inl, inr, List, [], ◌∷◌,
  ◌++◌, Option, some, none, true, false, if◌then◌else◌, arith, Bool-cases, add_word, ltb,
}
use co_lib.Fiber.{Callback, is_over, new_fiber}
use co_lib.Fiber.Orderly.{orderly_cb}
use co_lib.Scheduler.{
  Task, Scheduler, Worker, is_foreign, Pass, goes_on, breaks, fails, pass_of, run_fiber, run_cb,
  run_task, pass, run,
}
use co_lib.Scheduler.Queue.{all, any, has_work, pick-splits}
use co_lib.Scheduler.Sound.{is_of, count, is_fit}
use co_lib.Scheduler.Valid.{IsValid, IsSafe, take_off_lem, count-split, fit-split, taken-IsSound}
use co_lib.Scheduler.Branches.{run_fiber-IsSafe, run_cb-IsSafe, run_idle-IsSafe}

all-fit_work : (ts : List Task) → all is_fit ts ≡ true → all has_work ts ≡ true
all-fit_work [] h = refl
all-fit_work (t ∷ ts) h = ground (arith, all-fit_work ts)

Option-cases {ℓ} : {A : Type ℓ} → (o : Option A) → (o ≡ none) ⊎ ((a : A) × (o ≡ some a))
Option-cases none = inl refl
Option-cases (some a) = inr (a, refl)

run_task-fiber :
    (t : Task) (f : ℕ) (w : Worker) (s : Scheduler)
    → t.fiber ≡ some f
    → run_task t w s ≡ pass_of (run_fiber f w s)
unfolding run_task
run_task-fiber t f w s e = rw e refl

run_task-cb :
    (t : Task) (c : Callback) (w : Worker) (s : Scheduler)
    → t.fiber ≡ none
    → t.cb ≡ some c
    → run_task t w s ≡ pass_of (run_cb c w s)
unfolding run_task
run_task-cb t c w s e e' = rw (e, e') refl

-- A task of the queue and the state behind its search.
module _ (w : Worker) (s : Scheduler) (valid : IsValid w s) (before : List Task) (t : Task)
    (after : List Task) (split : s.fibers ≡ before ++ (t ∷ after)) (n a : ℕ) where
  abbrev without : Scheduler
  without = record s { fibers = before ++ after; active = a; tickles = n }

  counted : (f : ℕ) → count f s.fibers ≡ count f without.fibers + (if is_of f t.fiber then 1 else 0)
  counted f = ap (count f) split ∙ count-split before t after f

  without-IsValid : IsValid w without
  without-IsValid = record {
    sound = taken-IsSound before t after s n a split valid.sound;
    slot = elim valid.slot [
      | inl e ↦ inl e
      | inr (f, e, is_new, absent, lt) ↦ inr (f, e, is_new, omega (arith, counted f), lt)
    ];
    idle = valid.idle;
  }

  module _ (f : ℕ) (e : t.fiber ≡ some f) where
    in_queue : count f s.fibers ≡ suc (count f without.fibers)
    in_queue =
        let same : (f == f) ≡ true = ground arith in
        let e' : is_of f t.fiber ≡ true = rw e same in counted f ∙ rw e' (omega arith)

    alive : is_over (s.heap f).state ≡ false
    alive = elim (Bool-cases (is_over (s.heap f).state)) [
      | inl o ↦
          let le : count f s.fibers ≤ 0 = rw o at (valid.sound.once f) in
          absurd (omega (arith, in_queue))
      | inr o ↦ o
    ]

    known : f < s.size
    known = elim (Bool-cases (ltb f s.size)) [
      | inl lt ↦ ground arith
      | inr ge ↦
          let z : count f s.fibers ≡ 0 = valid.sound.fresh f (ground arith) in
          absurd (omega (arith, in_queue))
    ]

    apart : (k : ℕ) → w.cb_fiber ≡ some k → (k == f) ≡ false
    apart k ek = elim valid.slot [
      | inl none_kept ↦ absurd (cc)
      | inr (j, ej, is_new, absent, lt) ↦
          let e' : j ≡ k = cc in
          elim (Bool-cases (k == f)) [
            | inl same ↦
                let e2 : j ≡ f = ground arith in
                let z : count f s.fibers ≡ 0 = subst (λ i. count i s.fibers ≡ 0) e2 absent in
                absurd (omega (arith, in_queue))
            | inr d ↦ d
          ]
    ]

    gone : count f without.fibers ≡ 0
    gone =
        let le : count f s.fibers ≤ 1 = rw alive at (valid.sound.once f) in omega (arith, in_queue)

    fiber-IsSafe : IsSafe (pass_of (run_fiber f w without))
    fiber-IsSafe = run_fiber-IsSafe f w without without-IsValid alive gone known apart

  fit : is_fit t ≡ true
  fit = (fit-split before t after (ap (all is_fit) (sym split) ∙ valid.sound.fit)).1

  cb-IsSafe : (c : Callback) → t.cb ≡ some c → IsSafe (pass_of (run_cb c w without))
  unfolding new_fiber
  cb-IsSafe c e =
      let is_fit_t : is_fit t ≡ true = fit in
      let o : orderly_cb t.cb ≡ true = ground arith in
      run_cb-IsSafe c w without without-IsValid (rw e at o)

  task-IsSafe : IsSafe (run_task t w without)
  task-IsSafe = elim (Option-cases t.fiber) [
    | inr (f, e) ↦ subst IsSafe (sym (run_task-fiber t f w without e)) (fiber-IsSafe f e)
    | inl e ↦ elim (Option-cases t.cb) [
      | inr (c, e') ↦ subst IsSafe (sym (run_task-cb t c w without e e')) (cb-IsSafe c e')
      | inl e' ↦ let z : false ≡ true = no_work e e' fit in absurd (ground arith)
    ]
  ]
    where
      no_work : t.fiber ≡ none → t.cb ≡ none → is_fit t ≡ true → false ≡ true
      no_work e e' h = rw (e, e') at h

ticked-IsValid :
    (w : Worker) (s : Scheduler) (n : ℕ) → IsValid w s → IsValid w (record s { tickles = n })
ticked-IsValid w s n valid = record {
  sound = record {
    rest = valid.sound.rest;
    order = valid.sound.order;
    fit = valid.sound.fit;
    once = valid.sound.once;
    fresh = valid.sound.fresh;
  };
  slot = valid.slot;
  idle = valid.idle;
}

-- A pass of the loop from a valid state fails no assertion, and leaves a valid state or ends the
-- loop.
pub pass-IsSafe : (w : Worker) (s : Scheduler) → IsValid w s → IsSafe (pass w s)
unfolding pass
pass-IsSafe w s valid =
    elim (pick-splits w.id s.heap s.fibers (all-fit_work s.fibers valid.sound.fit)) [
      | inl (all_over, picked) ↦
          let (n, e) = take_off_lem (any (is_foreign w.id) s.fibers) none s.fibers s in
          rw (picked, e) (run_idle-IsSafe w (record s { tickles = n }) (ticked-IsValid w s n valid))
      | inr (before, t, after, split, all_over, here, picked) ↦
          let (n, e) = take_off_lem (any (is_foreign w.id) before) (some t) (before ++ after) s in
          rw (picked, e) (task-IsSafe w s valid before t after split n (add_word s.active 1))
    ]

rest_of_run-IsSafe :
    (n : ℕ) (p : Pass)
    → ((w : Worker) (s : Scheduler) → IsValid w s → IsSafe (run n w s))
    → IsSafe p
    → IsSafe (elim p as (λ x. Pass) [
      | goes_on w' s' ↦ run n w' s'
      | breaks s' ↦ breaks s'
      | fails ↦ fails
    ])
rest_of_run-IsSafe n (goes_on w s) next safe = next w s safe
rest_of_run-IsSafe n (breaks s) next safe = safe
rest_of_run-IsSafe n fails next safe = safe

-- However often the loop goes round from a valid state, no assertion fails, and the state is valid.
pub run-IsSafe : (n : ℕ) (w : Worker) (s : Scheduler) → IsValid w s → IsSafe (run n w s)
unfolding run
run-IsSafe zero w s valid = valid
run-IsSafe (suc n) w s valid =
    rest_of_run-IsSafe n (pass w s) (run-IsSafe n) (pass-IsSafe w s valid)

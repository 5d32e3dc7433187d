-- ===== src/Scheduler/Sound.antt =====
-- What keeps the loop of src/scheduler.cc from a failed assertion: each fiber is at rest, and stands
-- in the queue at most once, and not at all when it is over.
use co_lib.Prelude.{
  ℕ, ◌+◌, ◌≤◌, ◌<◌, ◌≡◌, refl, subst, ap, sym, ◌∙◌, ◌==◌, inl, inr, List, [], ◌∷◌, ◌++◌, map,
  Option, some, none, Bool, true, false, ◌&&◌, if◌then◌else◌, arith, Bool-cases,
}
use co_lib.Fiber.{Fiber, Request, of_cb, of_self}
use co_lib.Fiber.Lifecycle.{IsAtRest}
use co_lib.Fiber.Orderly.{orderly_cb, orderly_fiber, self_count, orderly_asked, live}
use co_lib.Scheduler.{Task, Scheduler}
use co_lib.Scheduler.Queue.{all, has_work}
use co_lib.Scheduler.Round.{task_of, HasRun}

abbrev pub is_of : ℕ → Option ℕ → Bool
is_of f none = false
is_of f (some g) = f == g

-- How often fiber `f` stands in the queue.
abbrev pub count : ℕ → List Task → ℕ
count f [] = 0
count f (t ∷ ts) = (if is_of f t.fiber then 1 else 0) + count f ts

abbrev pub is_fit : Task → Bool
is_fit t = has_work t && orderly_cb t.cb

pub record IsSound (s : Scheduler) : Type 0 where
  pub rest : (f : ℕ) → IsAtRest (s.heap f)
  pub order : (f : ℕ) → orderly_fiber (s.heap f) ≡ true
  pub fit : all is_fit s.fibers ≡ true
  pub once : (f : ℕ) → count f s.fibers ≤ live (s.heap f)
  pub fresh : (f : ℕ) → s.size ≤ f → count f s.fibers ≡ 0

pub count-append : (f : ℕ) (ts us : List Task) → count f (ts ++ us) ≡ count f ts + count f us
count-append f [] us = omega arith
count-append f (t ∷ ts) us = omega (arith, count-append f ts us)

pub all-append :
    (test : Task → Bool) (ts us : List Task) → all test (ts ++ us) ≡ (all test ts && all test us)
all-append test [] us = refl
all-append test (t ∷ ts) us = ground (arith, all-append test ts us)

pub count-same : (f : ℕ) (asked : List Request) → count f (map (task_of f) asked) ≡ self_count asked
count-same f [] = refl
count-same f (of_cb c thread ∷ asked) = omega (arith, count-same f asked)
count-same f (of_self thread ∷ asked) =
    let e : (f == f) ≡ true = ground arith in rw e (omega (arith, count-same f asked))

pub count-other :
    (j f : ℕ) (asked : List Request) → (j == f) ≡ false → count j (map (task_of f) asked) ≡ 0
count-other j f [] d = refl
count-other j f (of_cb c thread ∷ asked) d = omega (arith, count-other j f asked d)
count-other j f (of_self thread ∷ asked) d = rw d (omega (arith, count-other j f asked d))

fit-asked :
    (f : ℕ) (asked : List Request)
    → orderly_asked asked ≡ true
    → all is_fit (map (task_of f) asked) ≡ true
fit-asked f [] h = refl
fit-asked f (of_cb c thread ∷ asked) h = ground (arith, fit-asked f asked)
fit-asked f (of_self thread ∷ asked) h = fit-asked f asked h

-- A fiber that does not stand in the queue runs, and leaves all in order.
pub HasRun-IsSound :
    (f : ℕ) (v : Fiber) (asked : List Request) (s s' : Scheduler)
    → IsSound s
    → HasRun f v asked s s'
    → count f s.fibers ≡ 0
    → f < s'.size
    → IsAtRest v
    → orderly_fiber v ≡ true
    → orderly_asked asked ≡ true
    → self_count asked ≤ live v
    → IsSound s'
HasRun-IsSound f v asked s s' sound ran absent lt at_rest order oa le = record {
  rest = λ j. elim (Bool-cases (j == f)) [
    | inl e ↦ subst IsAtRest (sym (here j e)) at_rest
    | inr d ↦ subst IsAtRest (sym (ran.elsewhere j d)) (sound.rest j)
  ];
  order = λ j. elim (Bool-cases (j == f)) [
    | inl e ↦ ap orderly_fiber (here j e) ∙ order
    | inr d ↦ ap orderly_fiber (ran.elsewhere j d) ∙ sound.order j
  ];
  fit =
      ap (all is_fit) ran.fibers
      ∙ all-append is_fit s.fibers (map (task_of f) asked)
      ∙ rw (sound.fit, fit-asked f asked oa) refl;
  once = λ j. elim (Bool-cases (j == f)) [
    | inl e ↦ let e' : j ≡ f = ground arith in rw e' once_here
    | inr d ↦ subst (λ k. count j s'.fibers ≤ live k) (sym (ran.elsewhere j d)) (once_there j d)
  ];
  fresh = λ j le'. none_there j le';
}
  where
    here : (j : ℕ) → (j == f) ≡ true → s'.heap j ≡ v
    here j e = let e' : j ≡ f = ground arith in rw e' ran.here

    counts : (j : ℕ) → count j s'.fibers ≡ count j s.fibers + count j (map (task_of f) asked)
    counts j = ap (count j) ran.fibers ∙ count-append j s.fibers (map (task_of f) asked)

    once_here : count f s'.fibers ≤ live (s'.heap f)
    once_here =
        subst (λ k. count f s'.fibers ≤ live k) (sym ran.here)
          (omega (arith, counts f, count-same f asked))

    once_there : (j : ℕ) → (j == f) ≡ false → count j s'.fibers ≤ live (s.heap j)
    once_there j d = omega (arith, counts j, count-other j f asked d, sound.once j)

    none_there : (j : ℕ) → s'.size ≤ j → count j s'.fibers ≡ 0
    none_there j le' =
        let d : (j == f) ≡ false = ground arith in
        let bigger : s.size ≤ s'.size = ran.size in
        let old : count j s.fibers ≡ 0 = sound.fresh j (omega arith) in
        omega (arith, counts j, count-other j f asked d)

-- ===== src/Scheduler/Queue.antt =====
-- The queue of src/scheduler.cc: which task `run` takes off, and what `schedule` puts on.
use co_lib.Prelude.{
  ℕ, suc, ◌≡◌, refl, ap, sym, ◌∙◌, ◌⊎◌, inl, inr, ℤ, List, [], ◌∷◌, ◌++◌, append-nil, append_assoc,
  some, none, Bool, true, false, not, ◌&&◌, ◌||◌, if◌then◌else◌, arith, Bool-cases,
}
use co_lib.Fiber.{Fiber}
use co_lib.Scheduler.{
  Task, Scheduler, is_given, is_empty, tickle, schedule_no_lock, schedule, schedule_each,
  schedule_range, is_foreign, is_running, skip, pick,
}

-- A task that thread `me` passes over.
abbrev pub passes_over : ℤ → (ℕ → Fiber) → Task → Bool
passes_over me heap t = is_foreign me t || is_running heap t.fiber

abbrev pub all : (Task → Bool) → List Task → Bool
all test [] = true
all test (t ∷ ts) = test t && all test ts

abbrev pub any : (Task → Bool) → List Task → Bool
any test [] = false
any test (t ∷ ts) = test t || any test ts

-- Every task has a fiber or a callback.
abbrev pub has_work : Task → Bool
has_work t = is_given t.fiber || is_given t.cb

pick-over :
    (me : ℤ) (heap : ℕ → Fiber) (b : Task) (ts : List Task)
    → has_work b ≡ true
    → passes_over me heap b ≡ true
    → pick me heap (b ∷ ts) ≡ skip (is_foreign me b) b (pick me heap ts)
unfolding pick
pick-over me heap b ts h p = elim (Bool-cases (is_foreign me b)) [
  | inl e ↦ rw e
  | inr e ↦ let e' : is_running heap b.fiber ≡ true = ground arith in rw (e, h, e')
]

pick-here :
    (me : ℤ) (heap : ℕ → Fiber) (t : Task) (ts : List Task)
    → has_work t ≡ true
    → passes_over me heap t ≡ false
    → pick me heap (t ∷ ts) ≡ some (record { tickle_me = false; task = some t; fibers = ts })
unfolding pick
pick-here me heap t ts h p =
    let foreign : is_foreign me t ≡ false = ground arith in
    let running : is_running heap t.fiber ≡ false = ground arith in rw (foreign, h, running)

module _ (me : ℤ) (heap : ℕ → Fiber) where
  pick-first :
      (before after : List Task) (t : Task)
      → all has_work before ≡ true
      → all (passes_over me heap) before ≡ true
      → has_work t ≡ true
      → passes_over me heap t ≡ false
      → pick me heap (before ++ (t ∷ after))
        ≡ some (record {
          tickle_me = any (is_foreign me) before;
          task = some t;
          fibers = before ++ after;
        })
  pick-first [] after t hb pb ht pt = pick-here me heap t after ht pt
  pick-first (b ∷ before) after t hb pb ht pt =
      pick-over me heap b (before ++ (t ∷ after)) (ground arith) (ground arith)
      ∙ ap (skip (is_foreign me b) b)
          (pick-first before after t (ground arith) (ground arith) ht pt)

  pick-none :
      (ts : List Task)
      → all has_work ts ≡ true
      → all (passes_over me heap) ts ≡ true
      → pick me heap ts
        ≡ some (record { tickle_me = any (is_foreign me) ts; task = none; fibers = ts })
  unfolding pick
  pick-none [] h p = refl
  pick-none (t ∷ ts) h p =
      pick-over me heap t ts (ground arith) (ground arith)
      ∙ ap (skip (is_foreign me t) t) (pick-none ts (ground arith) (ground arith))

  -- The search of a queue without empty tasks takes the first task that the thread does not pass
  -- over, leaves the rest in its order, and reports whether a task for another thread stands before
  -- it; if the thread passes over every task, the queue stays as it is. It never fails.
  pub pick-splits :
      (ts : List Task)
      → all has_work ts ≡ true
      → ((all (passes_over me heap) ts ≡ true)
          × (pick me heap ts
              ≡ some (record { tickle_me = any (is_foreign me) ts; task = none; fibers = ts })))
        ⊎ ((before : List Task) × (t : Task) × (after : List Task) × (ts ≡ before ++ (t ∷ after))
            × (all (passes_over me heap) before ≡ true)
            × (passes_over me heap t ≡ false)
            × (pick me heap ts
                ≡ some (record {
                  tickle_me = any (is_foreign me) before;
                  task = some t;
                  fibers = before ++ after;
                })))
  pick-splits [] h = inl (refl, pick-none [] h refl)
  pick-splits (t ∷ ts) h = elim (Bool-cases (passes_over me heap t)) [
    | inr e ↦ inr ([], t, ts, refl, refl, e, pick-here me heap t ts (ground arith) e)
    | inl e ↦ elim (pick-splits ts (ground arith)) [
      | inl (p, q) ↦ inl (rw (e, p), pick-none (t ∷ ts) h (rw (e, p)))
      | inr (before, u, after, split, p, fits, q) ↦ inr (
        t ∷ before,
        u,
        after,
        ap (λ k. t ∷ k) split,
        rw (e, p),
        fits,
        pick-over me heap t ts (ground arith) e ∙ ap (skip (is_foreign me t) t) q,
      )
    ]
  ]

-- The tasks that have a fiber or a callback.
abbrev pub filter_work : List Task → List Task
filter_work [] = []
filter_work (t ∷ ts) = let rest = filter_work ts in if has_work t then t ∷ rest else rest

abbrev pub added : Scheduler → List Task → Scheduler
added s ts = record s { fibers = s.fibers ++ ts }

added-nil : (s : Scheduler) → s ≡ added s []
added-nil s = ap (λ k. record s { fibers = k }) (sym (append-nil s.fibers))

added-added : (s : Scheduler) (ts us : List Task) → added (added s ts) us ≡ added s (ts ++ us)
added-added s ts us = ap (λ k. record s { fibers = k }) (append_assoc s.fibers ts us)

schedule_no_lock_lem :
    (t : Task) (s : Scheduler)
    → schedule_no_lock t s ≡ (added s (filter_work (t ∷ [])), is_empty s.fibers)
unfolding schedule_no_lock
schedule_no_lock_lem t s = elim (Bool-cases (has_work t)) [
  | inl e ↦ rw e
  | inr e ↦ rw e (ap (λ k. (k, is_empty s.fibers)) (added-nil s))
]

is_empty-append : (ts us : List Task) → is_empty (ts ++ us) ≡ (is_empty ts && is_empty us)
is_empty-append [] us = refl
is_empty-append (t ∷ ts) us = refl

filter_work-cons :
    (t : Task) (ts : List Task) → filter_work (t ∷ []) ++ filter_work ts ≡ filter_work (t ∷ ts)
filter_work-cons t ts = elim (Bool-cases (has_work t)) [ inl e ↦ rw e | inr e ↦ rw e ]

tickle_once : (a b e more x : Bool) → e ≡ (a && x) → ((e && more) || (a || b)) ≡ ((a && true) || b)
tickle_once a b e more x h = ground arith

schedule_each_lem :
    (ts : List Task) (s : Scheduler) (b : Bool)
    → schedule_each ts (s, b)
      ≡ (added s (filter_work ts), (is_empty s.fibers && not (is_empty ts)) || b)
unfolding schedule_each
schedule_each_lem [] s b =
    let e : b ≡ ((is_empty s.fibers && false) || b) = ground arith in
    ap (λ k. (k, b)) (added-nil s) ∙ ap (λ k. (added s [], k)) e
schedule_each_lem (t ∷ ts) s b =
    let one : List Task = filter_work (t ∷ []) in
    let queue : added (added s one) (filter_work ts) ≡ added s (filter_work (t ∷ ts)) =
      added-added s one (filter_work ts) ∙ ap (added s) (filter_work-cons t ts) in
    rw (schedule_no_lock_lem t s) (
      schedule_each_lem ts (added s one) (is_empty s.fibers || b)
      ∙ ap (λ k. (added (added s one) (filter_work ts), k))
          (tickle_once (is_empty s.fibers) b (is_empty (s.fibers ++ one)) (not (is_empty ts))
            (is_empty one) (is_empty-append s.fibers one))
      ∙ ap (λ k. (k, (is_empty s.fibers && not (is_empty (t ∷ ts))) || b)) queue)

-- `schedule` of a range puts the tasks that have a fiber or a callback at the end of the queue, in
-- their order, and calls `tickle` once, if the queue was empty and the range is not.
pub schedule_range_lem :
    (ts : List Task) (s : Scheduler)
    → schedule_range ts s ≡ record s {
      fibers = s.fibers ++ filter_work ts;
      tickles = if is_empty s.fibers && not (is_empty ts) then suc s.tickles else s.tickles;
    }
unfolding schedule_range tickle
schedule_range_lem ts s =
    rw (schedule_each_lem ts s false)
      (elim (Bool-cases (is_empty s.fibers && not (is_empty ts))) [ inl e ↦ rw e | inr e ↦ rw e ])

-- `schedule` of one task is that of a range of one.
pub schedule-range : (t : Task) (s : Scheduler) → schedule t s ≡ schedule_range (t ∷ []) s
unfolding schedule schedule_range schedule_each tickle schedule_no_lock
schedule-range t s = elim (Bool-cases (has_work t)) [
  | inl e ↦ elim (Bool-cases (is_empty s.fibers)) [ inl e' ↦ rw (e, e') | inr e' ↦ rw (e, e') ]
  | inr e ↦ elim (Bool-cases (is_empty s.fibers)) [ inl e' ↦ rw (e, e') | inr e' ↦ rw (e, e') ]
]

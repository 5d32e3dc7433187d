-- ===== src/Timer/Collect.antt =====
-- The loop of `listExpiredCb` in src/timer.cc over the timers that it took out of the set.
use co_lib.Prelude.{
  ℕ, ◌≡◌, refl, ◌∙◌, ap, subst, inl, inr, List, [], ◌∷◌, Option, none, Bool, true, false, ◌&&◌,
  ◌||◌, ◌==◌, if◌then◌else◌, arith, Bool-cases, add_word,
}
use co_lib.Timer.{Callback, Timer, TimerManager, next_of, update, collect}
use co_lib.Timer.TimerSet.{insert}
use co_lib.Timer.TimerSet.Laws.{contains, Sorted, contains-insert, Sorted-insert, AllAfter-self}
use co_lib.Timer.Invariant.{armed, IsValid, Sorted-update}

abbrev pub callbacks : (ℕ → Timer) → List ℕ → List (Option Callback)
callbacks heap [] = []
callbacks heap (id ∷ ids) = (heap id).cb ∷ callbacks heap ids

callbacks-update :
    (heap : ℕ → Timer) (id : ℕ) (t : Timer) (ids : List ℕ)
    → contains id ids ≡ false
    → callbacks (update heap id t) ids ≡ callbacks heap ids
callbacks-update heap id t [] h = refl
callbacks-update heap id t (x ∷ ids) h = ground (arith, callbacks-update heap id t ids)

-- The loop's invariant: the timers still to be looked at are armed and not in the set.
pub record Collecting (expired : List ℕ) (m : TimerManager) : Type 0 where
  pub sorted : Sorted (next_of m.heap) m.timers
  pub in_set : (j : ℕ) → (contains j m.timers || contains j expired) ≡ armed j m
  pub apart : (j : ℕ) → (contains j m.timers && contains j expired) ≡ false

abbrev after_expiry : ℕ → Timer → Timer
after_expiry now t =
    if t.recurring then record t { next = add_word now t.ms } else record t { cb = none }

abbrev pub NoDup : List ℕ → Type 0
NoDup [] = Unit
NoDup (x ∷ xs) = (contains x xs ≡ false) × NoDup xs

pub Sorted-NoDup : (next : ℕ → ℕ) (xs : List ℕ) → Sorted next xs → NoDup xs
Sorted-NoDup next [] s = tt
Sorted-NoDup next (x ∷ xs) s = (AllAfter-self next x xs s.0, Sorted-NoDup next xs s.1)

abbrev collected_one : ℕ → ℕ → TimerManager → TimerManager
collected_one now id m =
    let heap = update m.heap id (after_expiry now (m.heap id)) in
    record m {
      heap = heap;
      timers = if (m.heap id).recurring then insert (next_of heap) id m.timers else m.timers;
    }

Sorted-insert_if :
    (next : ℕ → ℕ) (b : Bool) (id : ℕ) (xs : List ℕ)
    → Sorted next xs
    → Sorted next (if b then insert next id xs else xs)
Sorted-insert_if next true id xs s = Sorted-insert next id xs s
Sorted-insert_if next false id xs s = s

module _ (now id : ℕ) (expired : List ℕ) (m : TimerManager) where
  contains-collected_one :
      (j : ℕ)
      → contains j (collected_one now id m).timers
        ≡ (contains j m.timers || (id == j && (m.heap id).recurring))
  contains-collected_one j = elim (Bool-cases (m.heap id).recurring) [
    | inl on ↦ rw on (contains-insert _ j id m.timers ∙ ground arith)
    | inr off ↦ rw off (ground arith)
  ]

  collected_one-Collecting :
      contains id expired ≡ false
      → Collecting (id ∷ expired) m
      → Collecting expired (collected_one now id m)
  collected_one-Collecting nodup c = record {
    sorted = Sorted-insert_if _ (m.heap id).recurring id m.timers kept;
    in_set = λ j. rw (contains-collected_one j) (in_set j);
    apart = λ j. rw (contains-collected_one j) (apart j);
  }
    where
      kept : Sorted (next_of (update m.heap id (after_expiry now (m.heap id)))) m.timers
      kept = Sorted-update m.heap id _ m.timers (ground (arith, c.apart id)) c.sorted

      in_set :
          (j : ℕ)
          → ((contains j m.timers || (id == j && (m.heap id).recurring)) || contains j expired)
            ≡ armed j (collected_one now id m)
      in_set j = elim (Bool-cases (id == j)) [
        | inl e ↦
            let e' : id ≡ j = ground arith in
            subst
              (λ k.
                ((contains k m.timers || (id == k && (m.heap id).recurring)) || contains k expired)
                ≡ armed k (collected_one now id m))
              e' (ground (arith, c.in_set id, c.apart id, nodup))
        | inr e ↦ ground (arith, c.in_set j)
      ]

      apart :
          (j : ℕ)
          → ((contains j m.timers || (id == j && (m.heap id).recurring)) && contains j expired)
            ≡ false
      apart j = elim (Bool-cases (id == j)) [
        | inl e ↦
            let e' : id ≡ j = ground arith in
            ground (arith, c.apart j, ap (λ k. contains k expired) e', nodup)
        | inr e ↦ ground (arith, c.apart j)
      ]

pub record Collected (now : ℕ) (expired : List ℕ) (m : TimerManager) : Type 0 where
  pub cbs : (collect now expired m).0 ≡ callbacks m.heap expired
  pub kept :
      (j : ℕ)
      → contains j (collect now expired m).1.timers
        ≡ (contains j m.timers || (contains j expired && (m.heap j).recurring))
  pub valid : IsValid (collect now expired m).1

pub collect-Collected :
    (now : ℕ) (expired : List ℕ) (m : TimerManager)
    → NoDup expired
    → Collecting expired m
    → Collected now expired m
unfolding collect
collect-Collected now [] m n c = record {
  cbs = refl;
  kept = λ j. ground arith;
  valid = record { sorted = c.sorted; in_set = λ j. ground (arith, c.in_set j) };
}
collect-Collected now (id ∷ expired) m n c =
    let d =
      collect-Collected now expired (collected_one now id m) n.1
        (collected_one-Collecting now id expired m n.0 c) in
    record {
      cbs = ap (◌∷◌ (m.heap id).cb) (d.cbs ∙ callbacks-update m.heap id _ expired n.0);
      kept = λ j. d.kept j ∙ rw (contains-collected_one now id expired m j) (kept_lem j);
      valid = d.valid;
    }
  where
    kept_lem :
        (j : ℕ)
        → ((contains j m.timers || (id == j && (m.heap id).recurring))
            || (contains j expired
                && (update m.heap id (after_expiry now (m.heap id)) j).recurring))
          ≡ (contains j m.timers || (contains j (id ∷ expired) && (m.heap j).recurring))
    kept_lem j = elim (Bool-cases (id == j)) [
      | inl e ↦
          let e' : id ≡ j = ground arith in
          subst
            (λ k.
              ((contains k m.timers || (id == k && (m.heap id).recurring))
                || (contains k expired
                    && (update m.heap id (after_expiry now (m.heap id)) k).recurring))
              ≡ (contains k m.timers || (contains k (id ∷ expired) && (m.heap k).recurring)))
            e' (ground (arith, n.0))
      | inr e ↦ ground arith
    ]

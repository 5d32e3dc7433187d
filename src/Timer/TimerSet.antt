-- ===== src/Timer/TimerSet.antt =====
-- `std::set<Timer::ptr, Timer::Comparator>` of include/timer.h: an ascending list of addresses. The
-- order reads `m_next` of a timer through the function `next`.
pub mod Laws
pub mod Due
use co_lib.Prelude.{
  ℕ, List, [], ◌∷◌, Bool, true, false, ltb, ◌==◌, if◌then◌else◌, Option, some, none,
}

-- `Timer::Comparator::operator()`, for pointers that are not null.
abbrev pub less : (ℕ → ℕ) → ℕ → ℕ → Bool
less next a b =
    if ltb (next a) (next b) then true else if ltb (next b) (next a) then false else ltb a b

-- The same on pointers that may be null.
pub less_ptr : (ℕ → ℕ) → Option ℕ → Option ℕ → Bool
less_ptr next none none = false
less_ptr next none (some b) = true
less_ptr next (some a) none = false
less_ptr next (some a) (some b) = less next a b

module _ (next : ℕ → ℕ) where
  -- An element that is neither before nor behind `id` is equivalent to it, and stays.
  unfoldable pub insert : ℕ → List ℕ → List ℕ
  insert id [] = id ∷ []
  insert id (x ∷ xs) =
      let rest = insert id xs in
      if less next x id then x ∷ rest else if less next id x then id ∷ x ∷ xs else x ∷ xs

  -- Whether `find` meets an equivalent element.
  unfoldable pub found : ℕ → List ℕ → Bool
  found id [] = false
  found id (x ∷ xs) =
      let rest = found id xs in
      if less next x id then rest else if less next id x then false else true

  -- `erase` at what `find` returns.
  unfoldable pub erase : ℕ → List ℕ → List ℕ
  erase id [] = []
  erase id (x ∷ xs) =
      let rest = erase id xs in
      if less next x id then x ∷ rest else if less next id x then x ∷ xs else xs

  -- The elements before `lower_bound(id)`, and those from there on.
  unfoldable pub take_before : ℕ → List ℕ → List ℕ
  take_before id [] = []
  take_before id (x ∷ xs) = let rest = take_before id xs in if less next x id then x ∷ rest else []

  unfoldable pub drop_before : ℕ → List ℕ → List ℕ
  drop_before id [] = []
  drop_before id (x ∷ xs) = let rest = drop_before id xs in if less next x id then rest else x ∷ xs

  -- The elements that `while (it != end && (*it)->m_next == now) it++;` passes, and the others.
  unfoldable pub take_at : ℕ → List ℕ → List ℕ
  take_at now [] = []
  take_at now (x ∷ xs) = let rest = take_at now xs in if next x == now then x ∷ rest else []

  unfoldable pub drop_at : ℕ → List ℕ → List ℕ
  drop_at now [] = []
  drop_at now (x ∷ xs) = let rest = drop_at now xs in if next x == now then rest else x ∷ xs

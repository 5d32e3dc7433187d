-- ===== src/Timer/History.antt =====
-- Any sequence of calls on a `TimerManager` of src/timer.cc and its timers, in any order that the
-- lock may bring about.
use mathlib.Core.Option.{some-injective}
use co_lib.Prelude.{ℕ, ◌≡◌, refl, sym, ◌∙◌, subst, Option, some, none, Bool, false}
use co_lib.Timer.{
  Callback, Timer, TimerManager, create, add_timer, cancel, refresh, reset, get_next_timer,
  list_expired_cb,
}
use co_lib.Timer.Invariant.{armed, IsValid, create-IsValid, add_timer-IsValid, cancel_lem}
use co_lib.Timer.Restart.{refresh_lem, reset_lem}
use co_lib.Timer.Expiry.{list_expired_cb-takes}

pub data Call : Type 0 where
  adds : ℕ → ℕ → ℕ → Callback → Bool → Call
  cancels : ℕ → Call
  refreshes : ℕ → ℕ → Call
  resets : ℕ → ℕ → ℕ → Bool → Call
  asks : ℕ → Call
  expires : ℕ → ℕ → Call

abbrev state_of : Option (Bool × TimerManager) → Option TimerManager
state_of none = none
state_of (some (b, m)) = some m

-- The first number of a call that has one is the time.
unfoldable pub step : Call → TimerManager → Option TimerManager
step (adds now id ms cb recurring) m = some (add_timer now id ms (some cb) recurring m)
step (cancels id) m = state_of (cancel id m)
step (refreshes now id) m = state_of (refresh now id m)
step (resets now id ms from_now) m = state_of (reset now id ms from_now m)
step (asks now) m = some (get_next_timer now m).1
step (expires now now_timer) m = some (list_expired_cb now now_timer m).1

-- A new timer does not get the address of one that is in use.
abbrev pub IsFresh : Call → TimerManager → Type 0
IsFresh (adds now id ms cb recurring) m = armed id m ≡ false
IsFresh (expires now now_timer) m = armed now_timer m ≡ false
IsFresh _ m = Unit

pub data Reach (m : TimerManager) : TimerManager → Type 0 where
  here : Reach m m
  then_call :
      {t u : TimerManager} (c : Call) → Reach m t → IsFresh c t → step c t ≡ some u → Reach m u

abbrev pub Steps : Call → TimerManager → Type 0
Steps c m = (u : TimerManager) × (step c m ≡ some u) × IsValid u

step-Steps : (c : Call) (m : TimerManager) → IsFresh c m → IsValid m → Steps c m
unfolding step get_next_timer
step-Steps (adds now id ms cb recurring) m f v =
    (_, refl, (add_timer-IsValid now id ms cb recurring m f v).2)
step-Steps (cancels id) m f v = let (m', e, set, v') = cancel_lem id m v in (m', rw e, v')
step-Steps (refreshes now id) m f v =
    let (m', e, set, next, v') = refresh_lem now id m v in (m', rw e, v')
step-Steps (resets now id ms from_now) m f v =
    let (m', e, set, next, v') = reset_lem now id ms from_now m v in (m', rw e, v')
step-Steps (asks now) m f v = (_, refl, record { sorted = v.sorted; in_set = v.in_set })
step-Steps (expires now now_timer) m f v =
    (_, refl, (list_expired_cb-takes now now_timer m v f).valid)

Reach-IsValid : {m t : TimerManager} → IsValid m → Reach m t → IsValid t
Reach-IsValid v here = v
Reach-IsValid v (then_call {t} {u} c r f e) =
    let (u', e', v') = step-Steps c t f (Reach-IsValid v r) in
    subst IsValid (some-injective u' u (sym e' ∙ e)) v'

-- From a new manager on, no call ever erases the end of the set, whatever was called before: each
-- succeeds, and leaves a set in the order of the comparator that holds exactly the timers with a
-- callback.
pub Reach-Steps :
    (now : ℕ) (heap : ℕ → Timer) (t : TimerManager) (c : Call)
    → ((id : ℕ) → (heap id).cb ≡ none)
    → Reach (create now heap) t
    → IsFresh c t
    → Steps c t
Reach-Steps now heap t c h r f = step-Steps c t f (Reach-IsValid (create-IsValid now heap h) r)

-- ===== src/Hook.antt =====
-- src/hook.cc: the system calls that a fiber waits in, `do_io`, and the sleeps. What the system's call
-- answers each time, and how each wait of the fiber ends, are lists.
pub mod Blocking
pub mod Flags
mod Tests
use co_lib.Prelude.{
  ℕ, suc, ◌+◌, ◌-◌, ◌*◌, ◌/◌, ◌%◌, ◌^◌, List, [], ◌∷◌, ◌++◌, Option, some, none, Bool, true, false,
  not, ◌||◌, ◌==◌, if◌then◌else◌, ℤ, pos, negsuc, as_int,
}
use co_lib.FdManager.{FdCtx, TimeoutType, get_timeout, no_timeout}

abbrev pub eintr : ℕ
eintr = 4

abbrev pub ebadf : ℕ
ebadf = 9

abbrev pub eagain : ℕ
eagain = 11

abbrev pub etimedout : ℕ
etimedout = 110

-- A result, or -1 with `errno`.
pub data Answer : Type 0 where
  returns : ℕ → Answer
  fails : ℕ → Answer

-- `addEvent` fails, with `errno`; or the fiber waits, and is resumed in time, or after its timer
-- has run.
pub data Wait : Type 0 where
  refused : ℕ → Wait
  resumed : Wait
  expired : Wait

-- What `do_io` does: the system's call, a timer that is added or cancelled, the event that is added.
pub data Action : Type 0 where
  called armed disarmed awaited : Action

-- `none`: the call, or the wait, has not ended.
abbrev pub Run : Type 0
Run = List Action × Option Answer

abbrev pub then_run : List Action → Run → Run
then_run actions (more, r) = (actions ++ more, r)

-- A timer, unless there is no timeout.
abbrev pub with_timer : ℕ → Action → List Action
with_timer to act = if to == no_timeout then [] else act ∷ []

-- The end of a wait; the timer sets `cancelled`, if there is one.
abbrev pub end_wait : ℕ → Wait → Run → Run
end_wait to (refused e) more =
    (called ∷ (with_timer to armed ++ with_timer to disarmed), some (fails e))
end_wait to resumed more =
    then_run (called ∷ (with_timer to armed ++ (awaited ∷ with_timer to disarmed))) more
end_wait to expired more =
    if to == no_timeout
    then then_run (called ∷ (with_timer to armed ++ (awaited ∷ with_timer to disarmed))) more
    else (
      called ∷ (with_timer to armed ++ (awaited ∷ with_timer to disarmed)),
      some (fails etimedout),
    )

-- From `retry` on.
pub retry : ℕ → List Answer → List Wait → Run
retry to [] waits = ([], none)
retry to (returns n ∷ answers) waits = (called ∷ [], some (returns n))
retry to (fails e ∷ answers) [] =
    let again = then_run (called ∷ []) (retry to answers []) in
    if e == eintr
    then again
    else if e == eagain
    then (called ∷ (with_timer to armed ++ (awaited ∷ [])), none)
    else (called ∷ [], some (fails e))
retry to (fails e ∷ answers) (w ∷ waits) =
    let again = then_run (called ∷ []) (retry to answers (w ∷ waits)) in
    let more = retry to answers waits in
    if e == eintr
    then again
    else if e == eagain
    then end_wait to w more
    else (called ∷ [], some (fails e))

-- The system's call alone.
abbrev pub plain : List Answer → Run
plain [] = ([], none)
plain (a ∷ answers) = (called ∷ [], some a)

-- `do_io`, with `t_hook_enable`, the context of the descriptor, and the kind of its timeout
pub do_io : Bool → Option FdCtx → TimeoutType → List Answer → List Wait → Run
do_io false ctx kind answers waits = plain answers
do_io true none kind answers waits = plain answers
do_io true (some c) kind answers waits =
    if c.is_closed
    then ([], some (fails ebadf))
    else if not c.is_socket || c.user_nonblock
    then plain answers
    else retry (get_timeout kind c) answers waits

-- The time of the timer that each sleep adds, in milliseconds.
abbrev pub sleep_timer : ℕ → ℕ
sleep_timer seconds = seconds * 1000 % 2 ^ 32

abbrev pub usleep_timer : ℕ → ℕ
usleep_timer usec = usec / 1000

abbrev pub div_int : ℤ → ℕ → ℤ
div_int (pos n) d = pos (n / d)
div_int (negsuc n) d = if suc n / d == 0 then pos 0 else negsuc ((suc n / d) - 1)

abbrev pub nanosleep_timer : ℕ → ℕ → ℤ
nanosleep_timer sec nsec = div_int (as_int (sec * 1000 + nsec / 1000 / 1000)) 1000

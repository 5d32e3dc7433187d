-- ===== src/Hook/Tests.antt =====
-- Sockets of src/hook.cc.
use native.Mathlib.Omega.{arith}
use co_lib.Prelude.{ℕ, ◌≡◌, ◌==◌, not, refl, List, [], ◌∷◌, some, true, false, pos}
use co_lib.FdManager.{FdCtx, TimeoutType, get_timeout, no_timeout}
use co_lib.Hook.{
  Answer, returns, fails, resumed, expired, eintr, eagain, etimedout, do_io, retry, sleep_timer,
  nanosleep_timer,
}
use co_lib.Hook.Blocking.{blocking, is_guarded, do_io-blocking, do_io-is_guarded}
use co_lib.Hook.Flags.{
  put_nonblock, without_nonblock, has_nonblock-put_nonblock, has_nonblock, set_flags, get_flags,
  set_nonblock, get_flags-set_flags,
}

abbrev socket : FdCtx
socket = record {
  is_init = true;
  is_socket = true;
  sys_nonblock = true;
  user_nonblock = false;
  is_closed = false;
  fd = 7;
  recv_timeout = 500;
  send_timeout = no_timeout;
}

abbrev answers : List Answer
answers = fails eintr ∷ fails eagain ∷ fails eagain ∷ returns 12 ∷ []

do_io-blocking_example :
    (do_io true
      (some socket)
      TimeoutType.so_rcvtimeo
      answers
      (resumed ∷ resumed ∷ resumed ∷ resumed ∷ [])).1
    ≡ blocking answers
do_io-blocking_example =
    do_io-blocking socket TimeoutType.so_rcvtimeo answers
      (resumed ∷ resumed ∷ resumed ∷ resumed ∷ []) refl refl refl refl (omega arith)

run_that_expires :
    (do_io true (some socket) TimeoutType.so_rcvtimeo answers (resumed ∷ expired ∷ [])).1
    ≡ some (fails etimedout)
unfolding do_io retry get_timeout
run_that_expires = refl

do_io-is_guarded_example :
    is_guarded
      (not (get_timeout TimeoutType.so_rcvtimeo socket == no_timeout))
      false
      (do_io true (some socket) TimeoutType.so_rcvtimeo answers (resumed ∷ expired ∷ [])).0
    ≡ true
do_io-is_guarded_example =
    do_io-is_guarded socket TimeoutType.so_rcvtimeo answers (resumed ∷ expired ∷ [])
      (fails etimedout) refl refl refl run_that_expires

-- As on Linux: of the flags that F_SETFL is given, the system takes O_NONBLOCK and not the mode.
abbrev takes_nonblock : ℕ → ℕ → ℕ
takes_nonblock old given = put_nonblock (has_nonblock given) old

-- 2 is O_RDWR, 2048 is O_NONBLOCK.
get_flags-set_flags_example :
    let set = set_flags (some socket) 2048 in
    let kept = takes_nonblock 2 set.1 in
    (has_nonblock (get_flags set.0 kept) ≡ true)
    × (has_nonblock kept ≡ true)
    × (without_nonblock set.1 ≡ 0)
    × (without_nonblock (get_flags set.0 kept) ≡ without_nonblock kept)
get_flags-set_flags_example =
    get_flags-set_flags takes_nonblock socket 2 2048
      (λ flags given. has_nonblock-put_nonblock (has_nonblock given) flags) refl

-- `ioctl` with FIONBIO hands the program's choice to the system: the descriptor blocks.
blocking_ioctl : (set_nonblock (some socket) false).1 ≡ false
unfolding set_nonblock
blocking_ioctl = refl

-- Two seconds.
two_seconds : (sleep_timer 2 ≡ 2000) × (nanosleep_timer 2 0 ≡ pos 2)
two_seconds = (refl, refl)

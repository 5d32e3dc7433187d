-- ===== src/Hook/Flags.antt =====
-- `fcntl` with F_SETFL and F_GETFL, `ioctl` with FIONBIO, and the timeouts of `setsockopt` in src/hook.cc. Flags
-- are a number that is not negative; what the system makes of those that it is given is not modelled.
use co_lib.Prelude.{
  ℕ, ◌+◌, ◌-◌, ◌*◌, ◌/◌, ◌%◌, ◌≡◌, sym, ap, ◌∙◌, Option, some, none, Bool, true, false, not, ◌||◌,
  ◌==◌, if◌then◌else◌, arith, word_mod,
}
use co_lib.FdManager.{FdCtx, TimeoutType, set_timeout}

-- `arg & O_NONBLOCK`, `arg | O_NONBLOCK`, `arg & ~O_NONBLOCK`
abbrev pub has_nonblock : ℕ → Bool
has_nonblock arg = arg / 2048 % 2 == 1

abbrev pub with_nonblock : ℕ → ℕ
with_nonblock arg = if has_nonblock arg then arg else arg + 2048

abbrev pub without_nonblock : ℕ → ℕ
without_nonblock arg = if has_nonblock arg then arg - 2048 else arg

abbrev pub put_nonblock : Bool → ℕ → ℕ
put_nonblock b arg = if b then with_nonblock arg else without_nonblock arg

-- The context is looked at: it is there, open, and a socket's.
abbrev pub is_hooked : FdCtx → Bool
is_hooked c = not (c.is_closed || not c.is_socket)

-- `fcntl(fd, F_SETFL, arg)`: the context, and the flags that `fcntl` of the system is given.
pub set_flags : Option FdCtx → ℕ → Option FdCtx × ℕ
set_flags none arg = (none, arg)
set_flags (some c) arg =
    if is_hooked c
    then (some (record c { user_nonblock = has_nonblock arg }), put_nonblock c.sys_nonblock arg)
    else (some c, arg)

-- `fcntl(fd, F_GETFL)`, for the flags that `fcntl` of the system returns.
pub get_flags : Option FdCtx → ℕ → ℕ
get_flags none flags = flags
get_flags (some c) flags = if is_hooked c then put_nonblock c.user_nonblock flags else flags

-- `ioctl(fd, FIONBIO, &flag)`: the context, and whether the system's descriptor does not block.
unfoldable pub set_nonblock : Option FdCtx → Bool → Option FdCtx × Bool
set_nonblock none flag = (none, flag)
set_nonblock (some c) flag =
    if is_hooked c then (some (record c { user_nonblock = flag }), flag) else (some c, flag)

-- `setsockopt` with SO_RCVTIMEO or SO_SNDTIMEO: seconds and microseconds.
pub set_socket_timeout : TimeoutType → ℕ → ℕ → Option FdCtx → Option FdCtx
set_socket_timeout kind sec usec none = none
set_socket_timeout kind sec usec (some c) =
    some (set_timeout kind ((sec * 1000 + usec / 1000) % word_mod) c)

-- The flag that is put is there.
pub has_nonblock-put_nonblock : (b : Bool) (arg : ℕ) → has_nonblock (put_nonblock b arg) ≡ b
has_nonblock-put_nonblock true arg = ground arith
has_nonblock-put_nonblock false arg = ground arith

-- The other flags stay.
without_nonblock-put_nonblock :
    (b : Bool) (arg : ℕ) → without_nonblock (put_nonblock b arg) ≡ without_nonblock arg
without_nonblock-put_nonblock true arg = ground arith
without_nonblock-put_nonblock false arg = ground arith

-- Of an open socket, on a system whose F_SETFL takes O_NONBLOCK as it is asked, whatever it does
-- with the other flags: F_GETFL then gives O_NONBLOCK as the program has set it, while the system
-- has it exactly if the library has set it there; the other flags go to the system as the program
-- gave them, and come back as the system has them.
pub get_flags-set_flags :
    (setfl : ℕ → ℕ → ℕ) (c : FdCtx) (old arg : ℕ)
    → ((flags given : ℕ) → has_nonblock (setfl flags given) ≡ has_nonblock given)
    → is_hooked c ≡ true
    → let set = set_flags (some c) arg in
      let kept = setfl old set.1 in
      (has_nonblock (get_flags set.0 kept) ≡ has_nonblock arg)
      × (has_nonblock kept ≡ c.sys_nonblock)
      × (without_nonblock set.1 ≡ without_nonblock arg)
      × (without_nonblock (get_flags set.0 kept) ≡ without_nonblock kept)
unfolding set_flags get_flags
get_flags-set_flags setfl c old arg takes h =
    let c' : FdCtx = record c { user_nonblock = has_nonblock arg } in
    let given : ℕ = put_nonblock c.sys_nonblock arg in
    let set : set_flags (some c) arg ≡ (some c', given) =
      ap (λ b. if b then (some c', given) else (some c, arg)) h in
    let got : get_flags (set_flags (some c) arg).0 (setfl old (set_flags (some c) arg).1)
        ≡ put_nonblock (has_nonblock arg) (setfl old given) =
      ap (λ r. get_flags r.0 (setfl old r.1)) set
      ∙ ap (λ b. if b then put_nonblock (has_nonblock arg) (setfl old given) else setfl old given)
          h in
    (
      ap has_nonblock got ∙ has_nonblock-put_nonblock (has_nonblock arg) (setfl old given),
      ap (λ r. has_nonblock (setfl old r.1)) set
          ∙ takes old given
          ∙ has_nonblock-put_nonblock c.sys_nonblock arg,
      ap (λ r. without_nonblock r.1) set ∙ without_nonblock-put_nonblock c.sys_nonblock arg,
      ap without_nonblock got
          ∙ without_nonblock-put_nonblock (has_nonblock arg) (setfl old given)
          ∙ ap (λ r. without_nonblock (setfl old r.1)) (sym set),
    )

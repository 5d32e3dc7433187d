-- ===== src/FdManager.antt =====
-- src/fd_manager.cc and include/fd_manager.h: the contexts of file descriptors. What `fstat` and
-- `fcntl` of the system report is the record `Sys`. `none` stands for an access outside of `m_datas`.
pub mod Laws
mod Tests
use co_lib.Prelude.{
  ℕ, zero, suc, ◌*◌, ◌/◌, ◌-◌, ◌<◌, ℤ, List, [], ◌∷◌, ◌++◌, Option, some, none, Bool, true, false,
  not, ◌&&◌, ◌||◌, ltb, leb, ◌==◌, if◌then◌else◌, length, get_elem?, set, replicate, word_mod,
  as_int, leb_int,
}

-- `fstat`: whether it succeeds and whether the file is a socket; `fcntl(F_GETFL)`: O_NONBLOCK.
pub record Sys : Type 0 where
  pub fstat : ℕ → Option Bool
  pub nonblock : ℕ → Bool

pub record FdCtx : Type 0 where
  pub is_init : Bool
  pub is_socket : Bool
  pub sys_nonblock : Bool
  pub user_nonblock : Bool
  pub is_closed : Bool
  pub fd : ℕ
  pub recv_timeout : ℕ
  pub send_timeout : ℕ

-- `(uint64_t)-1`
abbrev pub no_timeout : ℕ
no_timeout = word_mod - 1

abbrev is_socket_of : Option Bool → Bool
is_socket_of none = false
is_socket_of (some sock) = sock

abbrev is_some {ℓ} : {A : Type ℓ} → Option A → Bool
is_some none = false
is_some (some a) = true

-- `FdCtx::init`, and whether it sets O_NONBLOCK by `fcntl(F_SETFL)`.
pub init : Sys → FdCtx → FdCtx × Bool
init sys c =
    if c.is_init
    then (c, false)
    else let sock = is_socket_of (sys.fstat c.fd) in
      (
        record c {
          is_init = is_some (sys.fstat c.fd);
          is_socket = sock;
          sys_nonblock = sock;
          user_nonblock = false;
          is_closed = false;
          recv_timeout = no_timeout;
          send_timeout = no_timeout;
        },
        sock && not (sys.nonblock c.fd),
      )

-- `FdCtx::FdCtx`
pub new_ctx : Sys → ℕ → FdCtx × Bool
unfolding init
new_ctx sys fd = init sys (record {
  is_init = false;
  is_socket = false;
  sys_nonblock = false;
  user_nonblock = false;
  is_closed = false;
  fd = fd;
  recv_timeout = no_timeout;
  send_timeout = no_timeout;
})

-- The `type` of a timeout.
pub data TimeoutType : Type 0 where
  so_rcvtimeo so_sndtimeo : TimeoutType

pub set_timeout : TimeoutType → ℕ → FdCtx → FdCtx
set_timeout so_rcvtimeo v c = record c { recv_timeout = v }
set_timeout so_sndtimeo v c = record c { send_timeout = v }

unfoldable pub get_timeout : TimeoutType → FdCtx → ℕ
get_timeout so_rcvtimeo c = c.recv_timeout
get_timeout so_sndtimeo c = c.send_timeout

-- `FdManager::m_datas`; an empty pointer is `none`.
abbrev pub Datas : Type 0
Datas = List (Option FdCtx)

pub create : Datas
create = replicate 64 none

-- `std::vector::resize`
abbrev pub resize : ℕ → Datas → Datas
resize zero d = []
resize (suc n) [] = none ∷ resize n []
resize (suc n) (c ∷ d) = c ∷ resize n d

-- `(int)m_datas.size() <= fd`
abbrev is_beyond : ℤ → Datas → Bool
is_beyond fd d = leb_int (as_int (length d)) fd

-- `resize(fd * 1.5)` where the descriptor is beyond the table.
abbrev grown : ℕ → Datas → Datas
grown fd d = if is_beyond (ℤ.pos fd) d then resize (fd * 3 / 2) d else d

-- `m_datas[fd] = ctx`
abbrev store : ℕ → FdCtx → Datas → Option Datas
store fd c d = if ltb fd (length d) then some (set d fd (some c)) else none

-- The part of `get` under the write lock.
pub create_ctx : Sys → ℕ → Datas → Option (Option FdCtx × Datas)
unfolding new_ctx
create_ctx sys fd d =
    let c = (new_ctx sys fd).0 in
    elim (store fd c (grown fd d)) [ none ↦ none | some d' ↦ some (some c, d') ]

abbrev has_slot : Option (Option FdCtx) → Bool
has_slot (some (some c)) = true
has_slot _ = false

abbrev slot : Option (Option FdCtx) → Option FdCtx
slot (some (some c)) = some c
slot _ = none

-- `FdManager::get`. A descriptor below -1 is out of the table, or asks for a table of a negative size.
pub get : Sys → ℤ → Bool → Datas → Option (Option FdCtx × Datas)
unfolding create_ctx
get sys (ℤ.negsuc zero) auto_create d = some (none, d)
get sys (ℤ.negsuc (suc n)) auto_create d =
    if is_beyond (ℤ.negsuc (suc n)) d && not auto_create then some (none, d) else none
get sys (ℤ.pos fd) auto_create d =
    if is_beyond (ℤ.pos fd) d
    then if not auto_create then some (none, d) else create_ctx sys fd d
    else if has_slot (get_elem? d fd) || not auto_create
    then some (slot (get_elem? d fd), d)
    else create_ctx sys fd d

-- `FdManager::del`
pub del : ℤ → Datas → Option Datas
del (ℤ.negsuc n) d = if is_beyond (ℤ.negsuc n) d then some d else none
del (ℤ.pos fd) d = if is_beyond (ℤ.pos fd) d then some d else some (set d fd none)

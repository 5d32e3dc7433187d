-- ===== src/FdManager/Tests.antt =====
-- Runs of src/fd_manager.cc, and the theorems at the table that it begins with.
use co_lib.Prelude.{arith, ℕ, ◌≡◌, refl, ℤ, some, none, true, false, if◌then◌else◌, ◌==◌}
use co_lib.FdManager.{
  Sys, FdCtx, Datas, new_ctx, create, get, del, so_rcvtimeo, so_sndtimeo, set_timeout, get_timeout,
  no_timeout,
}
use co_lib.FdManager.Laws.{context, IsValid, create-IsValid, get-context, del-context, found_or}

-- Every descriptor is a blocking socket.
abbrev sockets : Sys
sockets = record { fstat = λ fd. some true; nonblock = λ fd. false }

socket_ctx : FdCtx
socket_ctx = record {
  is_init = true;
  is_socket = true;
  sys_nonblock = true;
  user_nonblock = false;
  is_closed = false;
  fd = 100;
  recv_timeout = no_timeout;
  send_timeout = no_timeout;
}

new_ctx_socket : new_ctx sockets 100 ≡ (socket_ctx, true)
unfolding new_ctx socket_ctx
new_ctx_socket = refl

timeouts : get_timeout so_sndtimeo (set_timeout so_rcvtimeo 5 socket_ctx) ≡ no_timeout
unfolding get_timeout set_timeout socket_ctx
timeouts = refl

get-context_example :
    (d : Datas) × (get sockets (ℤ.pos 100) true create
      ≡ some (some (found_or (new_ctx sockets 100).0 (context 100 create)), d))
    × ((j : ℕ)
        → context j d ≡ (
            if 100 == j
            then some (found_or (new_ctx sockets 100).0 (context 100 create))
            else context j create))
    × IsValid d
get-context_example = get-context 100 create create-IsValid sockets (omega arith)

del-context_example :
    (d : Datas) × (del (ℤ.pos 70) create ≡ some d)
    × ((j : ℕ) → context j d ≡ (if 70 == j then none else context j create))
    × IsValid d
del-context_example = del-context 70 create create-IsValid

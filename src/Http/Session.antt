-- ===== src/Http/Session.antt =====
-- `HttpSession::readFixSize` and `writeFixSize` of src/http/http_session.cc on a socket. What the
-- peer sends comes in pieces; `recv` gives what is left of the first piece, up to what is asked.
pub mod Reading
pub mod Buffers
pub mod Writing
pub mod Closed
mod Tests
use co_lib.Prelude.{
  ℕ, zero, suc, ◌+◌, ◌-◌, ◌==◌, leb, if◌then◌else◌, List, [], ◌∷◌, ◌++◌, Option, some, none, Bool,
  true, false, Bytes, length, take, drop, ℤ, pos, negsuc, as_int, as_word, add_word, sub_word,
  ◌>>=◌, min,
}

-- What `recv` meets: bytes, an error, or the end of the peer's stream (no arrival is left).
pub data Arrival : Type 0 where
  piece : Bytes → Arrival
  failure : Arrival

-- A `Socket`: `m_isConnected`, what arrives, for each `send` how much the system takes of the
-- bytes, or an error, and what it has taken.
pub record Socket : Type 0 where
  pub connected : Bool
  pub arrivals : List Arrival
  pub takes : List (Option ℕ)
  pub sent : Bytes

-- What `recv` returns, and the bytes that it writes.
abbrev pub Received : Type 0
Received = ℤ × Bytes × Socket

abbrev pub behind : Bytes → List Arrival → List Arrival
behind [] arrivals = arrivals
behind (c ∷ cs) arrivals = piece (c ∷ cs) ∷ arrivals

abbrev pub recv : ℕ → List Arrival → Socket → Received
recv n [] s = (pos 0, [], s)
recv n (failure ∷ more) s = (negsuc 0, [], record s { arrivals = more })
recv n (piece p ∷ more) s =
    (as_int (length (take n p)), take n p, record s { arrivals = behind (drop n p) more })

-- `HttpSession::read`
abbrev pub read_session : ℕ → Socket → Received
read_session n s = if s.connected then recv n s.arrivals s else (negsuc 0, [], s)

-- The bytes at an offset of a buffer; beyond its end the behaviour is not defined.
abbrev pub store_at : ℕ → Bytes → Bytes → Option Bytes
store_at offset [] buffer = some buffer
store_at offset (c ∷ cs) buffer =
    if leb (offset + length (c ∷ cs)) (length buffer)
    then some (take offset buffer ++ ((c ∷ cs) ++ drop (offset + length (c ∷ cs)) buffer))
    else none

-- The result, the buffer, and the socket.
abbrev pub Read : Type 0
Read = ℤ × Bytes × Socket

-- The loop of `readFixSize`, with the number of its rounds as fuel; `size` is its `length`.
unfoldable pub read_fix_loop : ℕ → ℕ → ℕ → ℕ → Bytes → Socket → Option Read
read_fix_loop zero size offset left buffer s = none
read_fix_loop (suc fuel) size offset left buffer s =
    let (answer, bytes, s') = read_session left s in
    let len = as_word answer in
    let rest = store_at offset bytes buffer >>= λ b.
    read_fix_loop fuel size (add_word offset len) (sub_word left len) b s' in
    if left == 0
    then some (as_int size, buffer, s)
    else if len == 0
    then some (as_int len, buffer, s')
    else rest

-- `HttpSession::readFixSize`
unfoldable pub read_fix_size : ℕ → ℕ → Bytes → Socket → Option Read
read_fix_size fuel size buffer s = read_fix_loop fuel size 0 size buffer s

-- What `send` returns; the system may take less than is asked.
abbrev pub send : Bytes → List (Option ℕ) → Socket → ℤ × Socket
send bytes [] s = (as_int (length bytes), record s { sent = s.sent ++ bytes })
send bytes (none ∷ more) s = (negsuc 0, record s { takes = more })
send bytes (some n ∷ more) s =
    (as_int (length (take n bytes)), record s { takes = more; sent = s.sent ++ take n bytes })

-- `HttpSession::write`
abbrev pub write_session : Bytes → Socket → ℤ × Socket
write_session bytes s = if s.connected then send bytes s.takes s else (negsuc 0, s)

-- The loop of `writeFixSize`.
pub write_fix_loop : ℕ → ℕ → ℕ → ℕ → Bytes → Socket → Option (ℤ × Socket)
write_fix_loop zero size offset left buffer s = none
write_fix_loop (suc fuel) size offset left buffer s =
    let (answer, s') = write_session (take left (drop offset buffer)) s in
    let len = as_word answer in
    let rest = write_fix_loop fuel size (add_word offset len) (sub_word left len) buffer s' in
    if left == 0 then some (as_int size, s) else if len == 0 then some (as_int len, s') else rest

-- `HttpSession::writeFixSize`
pub write_fix_size : ℕ → ℕ → Bytes → Socket → Option (ℤ × Socket)
write_fix_size fuel size buffer s = write_fix_loop fuel size 0 size buffer s

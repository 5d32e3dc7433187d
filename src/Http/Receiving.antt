-- ===== src/Http/Receiving.antt =====
-- `HttpSession::recvRequest` of src/http/http_session.cc. `held` is what stands in the first `offset`
-- bytes of its buffer: `execute` of the parser moves what it has not parsed to the front.
pub mod Heads
pub mod Bodies
pub mod Requests
mod Tests
use co_lib.Prelude.{
  ℕ, zero, suc, ◌-◌, ◌==◌, leb, ltb, not, if◌then◌else◌, List, [], ◌∷◌, ◌++◌, Option, some, none,
  Bool, true, false, Bytes, bytes_eq, codes, length, take, drop, replicate, ℤ, pos, negsuc, ◌>>=◌,
}
use co_lib.Http.Headers.{HttpRequest, get_header, seen}
use co_lib.Http.Session.{Socket, Received, read_session, read_fix_size}

abbrev pub is_positive : ℤ → Bool
is_positive (pos zero) = false
is_positive (pos (suc n)) = true
is_positive (negsuc n) = false

-- `m_socket->close()`
abbrev pub close_socket : Socket → Socket
close_socket s = record s { connected = false }

-- `strcasecmp(keep_alive, "keep-alive")` of the header of the connection
abbrev pub keep_if_asked : HttpRequest → HttpRequest
keep_if_asked r =
    if bytes_eq (seen (get_header (codes "Connection") [] r)) (seen (codes "keep-alive"))
    then record r { close = false }
    else r

-- The bytes of a body, or a null pointer.
abbrev pub GotBody : Type 0
GotBody = Option Bytes × Socket

-- What is held first, and then `readFixSize` of the rest, if there is a rest.
abbrev pub read_rest : Bytes → Option (ℤ × Bytes × Socket) → Option GotBody
read_rest held none = none
read_rest held (some (answer, bytes, s)) =
    if is_positive answer then some (some (held ++ bytes), s) else some (none, close_socket s)

pub receive_body : ℕ → ℕ → Bytes → Socket → Option GotBody
receive_body fuel size held s =
    let left = size - length held in
    if leb (length held) size
    then (if ltb 0 left
        then read_rest held (read_fix_size fuel left (replicate left 0) s)
        else some (some held, s))
    else some (some (take size held), s)

-- The parser and what is held when the loop ends, or a null pointer.
abbrev pub GotHead : Type 0 → Type 0
GotHead P = Option (P × Bytes) × Socket

-- The parser of a request, with its state in `P`: `execute` gives how many bytes it has parsed,
-- `content_length` is an `int64_t`, and `request` is `getData`.
module _ {P : Type 0} (execute : P → Bytes → P × ℕ) (has_error is_finished : P → Bool)
    (buff_size : ℕ) where
  abbrev pub after_execute : P → Bytes → Socket → Option (GotHead P) → Option (GotHead P)
  after_execute p held s more =
      if has_error p
      then some (none, close_socket s)
      else if length held == buff_size
      then some (none, close_socket s)
      else if is_finished p
      then some (some (p, held), s)
      else more

  -- The loop, with the number of its rounds as fuel.
  pub receive_head : ℕ → P → Bytes → Socket → Option (GotHead P)
  receive_head zero p held s = none
  receive_head (suc fuel) p held s =
      let (answer, bytes, s1) = read_session (buff_size - length held) s in
      let (p1, nparse) = execute p (held ++ bytes) in
      let held1 = drop nparse (held ++ bytes) in
      let more = receive_head fuel p1 held1 s1 in
      if is_positive answer then after_execute p1 held1 s1 more else some (none, close_socket s1)

  module _ (content_length : P → ℤ) (request : P → HttpRequest) where
    abbrev pub with_body : HttpRequest → Option GotBody → Option (Option HttpRequest × Socket)
    with_body r none = none
    with_body r (some (none, s)) = some (none, s)
    with_body r (some (some body, s)) = some (some (keep_if_asked (record r { body = body })), s)

    abbrev pub behind_head : ℕ → P → ℤ → Bytes → Socket → Option (Option HttpRequest × Socket)
    behind_head fuel p (pos (suc n)) held s =
        with_body (request p) (receive_body fuel (suc n) held s)
    behind_head fuel p (pos zero) held s = some (some (keep_if_asked (request p)), s)
    behind_head fuel p (negsuc n) held s = some (some (keep_if_asked (request p)), s)

    abbrev pub from_head : ℕ → Option (GotHead P) → Option (Option HttpRequest × Socket)
    from_head fuel none = none
    from_head fuel (some (none, s)) = some (none, s)
    from_head fuel (some (some (p, held), s)) = behind_head fuel p (content_length p) held s

    -- `recvRequest`, with a new parser `p`
    pub recv_request : ℕ → ℕ → P → Socket → Option (Option HttpRequest × Socket)
    recv_request fuel fuel' p s = from_head fuel' (receive_head fuel p [] s)

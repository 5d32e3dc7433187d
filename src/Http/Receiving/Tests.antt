-- ===== src/Http/Receiving/Tests.antt =====
-- A request of src/http/http_session.cc that comes in pieces, with a parser that ends at the first `!`.
use native.Mathlib.Omega.{arith}
use co_lib.Prelude.{
  ℕ, suc, ◌≡◌, ◌==◌, refl, [], ◌∷◌, some, Bool, true, false, if◌then◌else◌, Bytes, codes, pos, ℤ,
}
use co_lib.Http.Headers.{HttpRequest, new_request, get_header, find}
use co_lib.Http.Session.{Socket, piece, read_fix_size, read_fix_loop}
use co_lib.Http.Session.Reading.{arriving}
use co_lib.Http.Receiving.{GotHead, receive_head, receive_body, recv_request, keep_if_asked}
use co_lib.Http.Receiving.Requests.{TakesHead, recv_request-reads}
use co_lib.Http.Receiving.Heads.{receive_head-ends}
use co_lib.Http.Receiving.Bodies.{receive_body-reads}

-- The state is whether the end was seen.
abbrev scan : Bytes → Bool × ℕ
scan [] = (false, 0)
scan (c ∷ cs) = let (seen, n) = scan cs in if c == b'!' then (true, 1) else (seen, suc n)

abbrev execute : Bool → Bytes → Bool × ℕ
execute p bytes = scan bytes

abbrev never : Bool → Bool
never p = false

abbrev same : Bool → Bool
same p = p

abbrev five : Bool → ℤ
five p = pos 5

abbrev request : Bool → HttpRequest
request p = new_request 17 true

abbrev socket : Socket
socket = record {
  connected = true;
  arrivals = piece (codes "he") ∷ piece (codes "ad!bo") ∷ piece (codes "dy.next") ∷ [];
  takes = [];
  sent = [];
}

receive_head-ends_example :
    (r : GotHead Bool) × (receive_head execute never same 8 30 false [] socket ≡ some r)
receive_head-ends_example = receive_head-ends execute never same 8 30 false socket (omega arith)

abbrev behind_head_socket : Socket
behind_head_socket = record socket { arrivals = piece (codes "dy.next") ∷ [] }

receive_body-reads_test :
    (t : Socket) × (receive_body 2 5 (codes "bo") behind_head_socket
      ≡ some (some (codes "body."), t))
    × (arriving t.arrivals ≡ codes "next")
receive_body-reads_test =
    receive_body-reads 2 5 (codes "bo") behind_head_socket (omega arith) (omega arith) refl refl
      (omega arith)

-- The whole request.
whole :
    recv_request execute never same 8 five request 9 9 false socket
    ≡ some (
      some (record (new_request 17 true) { body = codes "body." }),
      record socket { arrivals = piece (codes "next") ∷ [] },
    )
unfolding recv_request receive_head receive_body read_fix_size read_fix_loop get_header find
whole = refl

-- What is read behind a request without a body is lost.
abbrev two_requests : Socket
two_requests = record socket { arrivals = piece (codes "one!two!") ∷ [] }

abbrev no_length : Bool → ℤ
no_length p = pos 0

lost_request :
    recv_request execute never same 16 no_length request 9 9 false two_requests
    ≡ some (some (new_request 17 true), record two_requests { arrivals = [] })
unfolding recv_request receive_head get_header find
lost_request = refl

-- The parser at the end of the first `!`.
scan-TakesHead : TakesHead execute never same (codes "head!") false true
scan-TakesHead = record { takes = λ y. refl; no_error = refl; finished = refl }

abbrev whole_head : Socket
whole_head = record socket { arrivals = piece (codes "head!bo") ∷ piece (codes "dy.next") ∷ [] }

recv_request-reads_example :
    (t : Socket) × (recv_request execute never same 8 five request 1 30 false whole_head
      ≡ some (some (keep_if_asked (record (new_request 17 true) { body = codes "body." })), t))
recv_request-reads_example =
    recv_request-reads execute never same 8 (codes "head!") false true scan-TakesHead (omega arith)
      five request 0 30 4 (codes "body.") (codes "next") (codes "bo") (piece (codes "dy.next") ∷ [])
      whole_head (omega arith) (omega arith) refl refl (omega arith) refl refl refl refl
      (omega arith)

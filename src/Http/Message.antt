-- ===== src/Http/Message.antt =====
-- `HttpResponse` and the printing of messages in src/http/http.cc, and `sendResponse` of
-- src/http/http_session.cc. What a stream is given piece by piece is a list that is put together.
pub mod Framing
mod Tests
use co_lib.Prelude.{
  ℕ, ◌/◌, ◌%◌, List, [], ◌∷◌, ◌++◌, Option, Bool, true, false, if◌then◌else◌, Bytes, bytes_eq,
  codes, length, decimal, ℤ,
}
use co_lib.Http.Method.{http_method_to_string}
use co_lib.Http.Status.{HttpStatus, http_status_to_string}
use co_lib.Http.Headers.{MapType, HttpRequest, seen}
use co_lib.Http.Session.{Socket, write_fix_size}

pub record HttpResponse : Type 0 where
  pub status : HttpStatus
  pub version : ℕ
  pub close : Bool
  pub body : Bytes
  pub reason : Bytes
  pub headers : MapType

-- `HttpResponse::HttpResponse`; the status is OK.
abbrev pub new_response : ℕ → Bool → HttpResponse
new_response version close = record {
  status = 200;
  version = version;
  close = close;
  body = [];
  reason = [];
  headers = [];
}

abbrev pub concat : List Bytes → Bytes
concat [] = []
concat (p ∷ ps) = p ++ concat ps

abbrev pub crlf : Bytes
crlf = 13 ∷ 10 ∷ []

-- `strcasecmp(key, "connection") == 0`
abbrev pub is_connection : Bytes → Bool
is_connection key = bytes_eq (seen key) (seen (codes "connection"))

-- The loop over the headers; the text between a key and its value differs.
pub dump_headers : Bytes → MapType → Bytes
dump_headers between [] = []
dump_headers between ((k, v) ∷ m) =
    let rest = dump_headers between m in
    if is_connection k then rest else concat (k ∷ between ∷ v ∷ crlf ∷ rest ∷ [])

abbrev pub connection_line : Bool → Bytes
connection_line close =
    concat (codes "connection: " ∷ (if close then codes "close" else codes "keep-alive") ∷ [])

abbrev pub dump_body : Bytes → Bytes
dump_body [] = crlf
dump_body (c ∷ cs) =
    concat (codes "content-length: " ∷ decimal (length (c ∷ cs)) ∷ crlf ∷ crlf ∷ (c ∷ cs) ∷ [])

abbrev pub or_empty : Bytes → Bytes → Bytes
or_empty [] sign = []
or_empty (c ∷ cs) sign = sign

-- `HttpRequest::dump`
abbrev pub request_line : HttpRequest → Bytes
request_line r = concat (
    http_method_to_string r.method
    ∷ codes " "
    ∷ r.path
    ∷ or_empty r.query (codes "?")
    ∷ r.query
    ∷ or_empty r.fragment (codes "#")
    ∷ r.fragment
    ∷ codes " HTTP/"
    ∷ decimal (r.version / 16)
    ∷ codes "."
    ∷ decimal (r.version % 16)
    ∷ [])

pub dump_request : HttpRequest → Bytes
dump_request r = concat (
    request_line r
    ∷ crlf
    ∷ connection_line r.close
    ∷ crlf
    ∷ dump_headers (codes ":") r.headers
    ∷ dump_body r.body
    ∷ [])

-- `HttpResponse::dump`
abbrev pub reason_or_text : Bytes → HttpStatus → Bytes
reason_or_text [] s = http_status_to_string s
reason_or_text (c ∷ cs) s = c ∷ cs

abbrev pub status_line : HttpResponse → Bytes
status_line r = concat (
    codes "HTTP/"
    ∷ decimal (r.version / 16)
    ∷ codes "."
    ∷ decimal (r.version % 16)
    ∷ codes " "
    ∷ decimal r.status
    ∷ codes " "
    ∷ reason_or_text r.reason r.status
    ∷ [])

pub dump_response : HttpResponse → Bytes
dump_response r = concat (
    status_line r
    ∷ crlf
    ∷ dump_headers (codes ": ") r.headers
    ∷ connection_line r.close
    ∷ crlf
    ∷ dump_body r.body
    ∷ [])

-- `HttpSession::sendResponse`, with the fuel of `writeFixSize`
pub send_response : ℕ → HttpResponse → Socket → Option (ℤ × Socket)
send_response fuel r s = let bytes = dump_response r in write_fix_size fuel (length bytes) bytes s

-- ===== src/Http/Message/Tests.antt =====
-- Printed messages of src/http/http.cc.
use native.Mathlib.Omega.{arith}
use co_lib.Prelude.{◌<◌, ◌^◌, ◌≡◌, refl, [], ◌∷◌, some, true, false, codes, length, pos}
use co_lib.Http.Headers.{HttpRequest, new_request}
use co_lib.Http.Method.{http_method_to_string}
use co_lib.Http.Session.{Socket}
use co_lib.Http.Message.{
  HttpResponse, new_response, dump_request, dump_response, dump_headers, send_response,
}
use co_lib.Http.Message.Framing.{
  are_lines, read_head, request_lines, response_lines, read_head-dump_request,
  send_response-read_head,
}

abbrev request : HttpRequest
request = record (new_request 17 true) {
  path = codes "/a";
  query = codes "x=1";
  body = codes "hello";
  headers = (codes "Accept", codes "text/html") ∷ (codes "Connection", codes "x") ∷ [];
}

request_lines_of_request : are_lines (request_lines request) ≡ true
unfolding http_method_to_string
request_lines_of_request = refl

read_head-dump_request_example :
    read_head 9 (dump_request request) ≡ some (request_lines request, request.body)
read_head-dump_request_example =
    read_head-dump_request 9 request request_lines_of_request (omega arith)

abbrev response : HttpResponse
response = record (new_response 17 false) {
  body = codes "hi";
  reason = codes "Fine";
  headers = (codes "Server", codes "co_lib/1.0.0") ∷ [];
}

-- The system takes three bytes, then ten, and then all.
abbrev socket : Socket
socket = record { connected = true; arrivals = []; takes = some 3 ∷ some 10 ∷ []; sent = [] }

response_is_short : length (dump_response response) < 2 ^ 31
unfolding dump_response dump_headers
response_is_short = omega arith

send_response-read_head_example :
    (t : Socket) × (send_response 5 response socket
      ≡ some (pos (length (dump_response response)), t))
    × (read_head 9 t.sent ≡ some (response_lines response, response.body))
send_response-read_head_example =
    send_response-read_head 5 9 response socket refl (omega arith) response_is_short refl refl refl
      (omega arith)

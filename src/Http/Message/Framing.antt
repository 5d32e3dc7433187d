-- ===== src/Http/Message/Framing.antt =====
-- A reader that splits a printed message of src/http/http.cc at its line ends finds its parts.
use co_lib.Prelude.{
  ℕ, zero, suc, ◌+◌, ◌<◌, ◌^◌, ◌==◌, not, ◌&&◌, List, [], ◌∷◌, ◌++◌, ◌≡◌, refl, sym, ◌∙◌, ap, subst,
  inl, inr, Option, some, none, Bool, true, false, if◌then◌else◌, Bytes, codes, length, decimal,
  pos, arith, Bool-cases, append_assoc, append-nil, take, take-all,
}
use co_lib.Http.Headers.{MapType, HttpRequest}
use co_lib.Http.Session.{Socket}
use co_lib.Http.Session.Writing.{is_willing, write_fix_size-writes}
use co_lib.Http.Message.{
  HttpResponse, concat, crlf, is_connection, dump_headers, connection_line, dump_body, request_line,
  dump_request, status_line, dump_response, send_response,
}

-- The text up to the first line end, behind `acc`, and what comes after it.
abbrev pub read_line : Bytes → Bytes → Option (Bytes × Bytes)
read_line acc [] = none
read_line acc (c ∷ []) = none
read_line acc (c ∷ d ∷ cs) =
    let more = read_line (acc ++ (c ∷ [])) (d ∷ cs) in
    if c == 13 && d == 10 then some (acc, cs) else more

abbrev pub Head : Type 0
Head = List Bytes × Bytes

abbrev pub with_line : Bytes → Option Head → Option Head
with_line line none = none
with_line line (some (lines, body)) = some (line ∷ lines, body)

abbrev pub next_line : Option (Bytes × Bytes) → (Bytes → Option Head) → Option Head
next_line none more = none
next_line (some ([], rest)) more = some ([], rest)
next_line (some (c ∷ line, rest)) more = with_line (c ∷ line) (more rest)

-- The lines up to an empty one, and what comes after that.
unfoldable pub read_head : ℕ → Bytes → Option Head
read_head zero s = none
read_head (suc fuel) s = next_line (read_line [] s) (read_head fuel)

abbrev pub put_lines : List Bytes → Bytes
put_lines [] = []
put_lines (l ∷ ls) = l ++ (crlf ++ put_lines ls)

abbrev pub has_no_cr : Bytes → Bool
has_no_cr [] = true
has_no_cr (c ∷ cs) = not (c == 13) && has_no_cr cs

abbrev pub is_line : Bytes → Bool
is_line [] = false
is_line (c ∷ cs) = has_no_cr (c ∷ cs)

abbrev pub are_lines : List Bytes → Bool
are_lines [] = true
are_lines (l ∷ ls) = is_line l && are_lines ls

abbrev pub header_lines : Bytes → MapType → List Bytes
header_lines between [] = []
header_lines between ((k, v) ∷ m) =
    let rest = header_lines between m in
    if is_connection k then rest else concat (k ∷ between ∷ v ∷ []) ∷ rest

-- A body that is not empty has its length in front, in decimal.
abbrev pub length_lines : Bytes → List Bytes
length_lines [] = []
length_lines (c ∷ cs) = concat (codes "content-length: " ∷ decimal (length (c ∷ cs)) ∷ []) ∷ []

abbrev pub request_lines : HttpRequest → List Bytes
request_lines r =
    request_line r
    ∷ connection_line r.close
    ∷ (header_lines (codes ":") r.headers ++ length_lines r.body)

abbrev pub response_lines : HttpResponse → List Bytes
response_lines r =
    status_line r
    ∷ (header_lines (codes ": ") r.headers ++ (connection_line r.close ∷ length_lines r.body))

concat-append : (xs ys : List Bytes) → concat (xs ++ ys) ≡ concat xs ++ concat ys
concat-append [] ys = refl
concat-append (x ∷ xs) ys =
    ap (λ r. x ++ r) (concat-append xs ys) ∙ sym (append_assoc x (concat xs) (concat ys))

put_lines-append : (xs ys : List Bytes) → put_lines (xs ++ ys) ≡ put_lines xs ++ put_lines ys
put_lines-append [] ys = refl
put_lines-append (x ∷ xs) ys =
    ap (λ r. x ++ (crlf ++ r)) (put_lines-append xs ys)
    ∙ sym (append_assoc x (crlf ++ put_lines xs) (put_lines ys))

dump_headers-lines :
    (between : Bytes) (m : MapType) → dump_headers between m ≡ put_lines (header_lines between m)
unfolding dump_headers
dump_headers-lines between [] = refl
dump_headers-lines between ((k, v) ∷ m) = elim (Bool-cases (is_connection k)) [
  | inl e ↦ rw e (dump_headers-lines between m)
  | inr e ↦
      let rest : dump_headers between m ≡ put_lines (header_lines between m) =
        dump_headers-lines between m in
      rw e (
        concat-append (k ∷ between ∷ v ∷ []) (crlf ∷ dump_headers between m ∷ [])
        ∙ ap (λ r. concat (k ∷ between ∷ v ∷ []) ++ (crlf ++ r))
            (append-nil (dump_headers between m) ∙ rest))
]

dump_body-lines : (body : Bytes) → dump_body body ≡ put_lines (length_lines body) ++ (crlf ++ body)
dump_body-lines [] = refl
dump_body-lines (c ∷ cs) =
    let line = concat (codes "content-length: " ∷ decimal (length (c ∷ cs)) ∷ []) in
    concat-append (codes "content-length: " ∷ decimal (length (c ∷ cs)) ∷ [])
      (crlf ∷ crlf ∷ (c ∷ cs) ∷ [])
    ∙ ap (λ r. line ++ (crlf ++ (crlf ++ r))) (append-nil (c ∷ cs))
    ∙ sym (append_assoc line crlf (crlf ++ (c ∷ cs)))

read_line-line :
    (acc line rest : Bytes)
    → has_no_cr line ≡ true
    → read_line acc (line ++ (crlf ++ rest)) ≡ some (acc ++ line, rest)
read_line-line acc [] rest h = ap (λ a. some (a, rest)) (sym (append-nil acc))
read_line-line acc (c ∷ []) rest h = let other : (c == 13) ≡ false = ground arith in rw other refl
read_line-line acc (c ∷ d ∷ line) rest h =
    let other : (c == 13) ≡ false = ground arith in
    rw other (
      read_line-line (acc ++ (c ∷ [])) (d ∷ line) rest (ground arith)
      ∙ ap (λ a. some (a, rest)) (append_assoc acc (c ∷ []) (d ∷ line)))

-- The reader finds the lines that are put in front of an empty line, and what is behind.
read_head-lines :
    (fuel : ℕ) (lines : List Bytes) (body : Bytes)
    → are_lines lines ≡ true
    → length lines < fuel
    → read_head fuel (put_lines lines ++ (crlf ++ body)) ≡ some (lines, body)
unfolding read_head
read_head-lines zero lines body h k = absurd (omega arith)
read_head-lines (suc fuel) [] body h k = refl
read_head-lines (suc fuel) ([] ∷ lines) body h k = absurd (cc)
read_head-lines (suc fuel) ((c ∷ line) ∷ lines) body h k =
    let rest = put_lines lines ++ (crlf ++ body) in
    let first : read_line [] ((c ∷ line) ++ (crlf ++ rest)) ≡ some (c ∷ line, rest) =
      read_line-line [] (c ∷ line) rest (ground arith) in
    let more : read_head fuel rest ≡ some (lines, body) =
      read_head-lines fuel lines body (ground arith) (omega arith) in
    subst (λ s. read_head (suc fuel) s ≡ some ((c ∷ line) ∷ lines, body))
      (sym (append_assoc (c ∷ line) (crlf ++ put_lines lines) (crlf ++ body)))
      (ap (λ o. next_line o (read_head fuel)) first ∙ ap (with_line (c ∷ line)) more)

-- The headers, in front of lines.
dump_headers-put_lines :
    (between : Bytes) (m : MapType) (lines : List Bytes) (x rest : Bytes)
    → x ≡ put_lines lines ++ rest
    → dump_headers between m ++ x ≡ put_lines (header_lines between m ++ lines) ++ rest
dump_headers-put_lines between m lines x rest e =
    ap (λ h. h ++ x) (dump_headers-lines between m)
    ∙ ap (λ y. put_lines (header_lines between m) ++ y) e
    ∙ sym (append_assoc (put_lines (header_lines between m)) (put_lines lines) rest)
    ∙ ap (λ y. y ++ rest) (sym (put_lines-append (header_lines between m) lines))

dump_body-end :
    (body : Bytes) → dump_body body ++ [] ≡ put_lines (length_lines body) ++ (crlf ++ body)
dump_body-end body = append-nil (dump_body body) ∙ dump_body-lines body

-- A line in front.
line-put_lines :
    (line : Bytes) (lines : List Bytes) (x rest : Bytes)
    → x ≡ put_lines lines ++ rest
    → line ++ (crlf ++ x) ≡ put_lines (line ∷ lines) ++ rest
line-put_lines line lines x rest e =
    ap (λ y. line ++ (crlf ++ y)) e ∙ sym (append_assoc line (crlf ++ put_lines lines) rest)

dump_request-lines :
    (r : HttpRequest) → dump_request r ≡ put_lines (request_lines r) ++ (crlf ++ r.body)
unfolding dump_request
dump_request-lines r =
    let tail : Bytes = crlf ++ r.body in
    line-put_lines (request_line r)
      (connection_line r.close ∷ (header_lines (codes ":") r.headers ++ length_lines r.body)) _ tail
      (line-put_lines (connection_line r.close) _ _ tail (
        dump_headers-put_lines (codes ":") r.headers (length_lines r.body) _ tail
          (dump_body-end r.body)))

dump_response-lines :
    (r : HttpResponse) → dump_response r ≡ put_lines (response_lines r) ++ (crlf ++ r.body)
unfolding dump_response
dump_response-lines r =
    let tail : Bytes = crlf ++ r.body in
    line-put_lines (status_line r)
      (header_lines (codes ": ") r.headers ++ (connection_line r.close ∷ length_lines r.body)) _
      tail
      (dump_headers-put_lines (codes ": ") r.headers (connection_line r.close ∷ length_lines r.body)
        _ tail (line-put_lines (connection_line r.close) _ _ tail (dump_body-end r.body)))

-- A printed request, none of whose lines has a carriage return: a reader that splits it at its line ends, up to
-- the empty line, finds the request line, the line of the connection, each header but those of the connection,
-- and, if there is a body, the line with its length; what comes after the empty line is the body.
pub read_head-dump_request :
    (fuel : ℕ) (r : HttpRequest)
    → are_lines (request_lines r) ≡ true
    → length (request_lines r) < fuel
    → read_head fuel (dump_request r) ≡ some (request_lines r, r.body)
read_head-dump_request fuel r h k =
    ap (read_head fuel) (dump_request-lines r) ∙ read_head-lines fuel (request_lines r) r.body h k

-- `sendResponse` on a connected socket that has sent nothing, on which the system takes at least a byte each
-- time and meets no error, of a response none of whose lines has a carriage return, below 2 ^ 31 bytes: it
-- returns the length of the text, and a reader that splits what is sent at its line ends, up to the empty line,
-- finds the status line, each header but those of the connection, the line of the connection, and, if there is
-- a body, the line with its length; what comes after the empty line is the body.
pub send_response-read_head :
    (fuel fuel' : ℕ) (r : HttpResponse) (s : Socket)
    → are_lines (response_lines r) ≡ true
    → length (response_lines r) < fuel'
    → length (dump_response r) < 2 ^ 31
    → is_willing s.takes ≡ true
    → s.connected ≡ true
    → s.sent ≡ []
    → 1 + length s.takes < fuel
    → (t : Socket) × (send_response fuel r s ≡ some (pos (length (dump_response r)), t))
      × (read_head fuel' t.sent ≡ some (response_lines r, r.body))
unfolding send_response
send_response-read_head fuel fuel' r s lines many bound willing live fresh enough =
    let bytes = dump_response r in
    let (t, e, sent, w, l) =
      write_fix_size-writes fuel (length bytes) bytes s bound (omega arith) willing live enough in
    (
      t,
      e,
      ap (read_head fuel') (
            sent
            ∙ ap (λ x. x ++ take (length bytes) bytes) fresh
            ∙ take-all (length bytes) bytes (omega arith)
            ∙ dump_response-lines r)
          ∙ read_head-lines fuel' (response_lines r) r.body lines many,
    )

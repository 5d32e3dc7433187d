-- ===== src/Http/Receiving/Requests.antt =====
-- `recvRequest` of src/http/http_session.cc on a stream whose first piece has a whole head.
use co_lib.Prelude.{
  ℕ, zero, suc, ◌+◌, ◌-◌, ◌^◌, ◌≤◌, ◌<◌, ◌==◌, List, [], ◌∷◌, ◌++◌, ◌≡◌, refl, sym, ◌∙◌, ap, Option,
  some, none, Bool, true, false, if◌then◌else◌, Bytes, length, take, drop, ℤ, pos, as_int,
  as_int_small, arith, length-append, length-drop, length-take, take-append_left, drop-append_right,
  take-take, append_assoc, take-all,
}
use co_lib.Http.Headers.{HttpRequest}
use co_lib.Http.Session.{Arrival, piece, failure, Socket, behind, read_session}
use co_lib.Http.Session.Buffers.{take-drop}
use co_lib.Http.Session.Reading.{arriving, is_smooth, arriving-behind, is_smooth-behind, recv_piece}
use co_lib.Http.Receiving.{
  GotHead, is_positive, after_execute, receive_head, close_socket, recv_request, from_head,
  behind_head, with_body, keep_if_asked,
}
use co_lib.Http.Receiving.Bodies.{receive_body-reads}
use co_lib.Http.Receiving.Heads.{weight, weight-behind}

take-append_drop : (n : ℕ) (p rest : Bytes) → p ++ rest ≡ take n p ++ (drop n p ++ rest)
take-append_drop zero p rest = refl
take-append_drop (suc n) [] rest = refl
take-append_drop (suc n) (c ∷ p) rest = ap (λ x. c ∷ x) (take-append_drop n p rest)

append_cancel : (p a b : Bytes) → p ++ a ≡ p ++ b → a ≡ b
append_cancel p a b e =
    sym (drop-append_right (length p) 0 p a (omega arith))
    ∙ ap (drop (length p)) e
    ∙ drop-append_right (length p) 0 p b (omega arith)

-- A head that a new parser, at `start`, takes from the bytes that it stands in front of: it takes
-- just the head, is at `done` then, has finished, and reports no error. All bytes of the head are
-- in this one `execute`, since the parser does not keep the start of a token from one to the next.
pub record TakesHead {P : Type 0} (execute : P → Bytes → P × ℕ) (has_error is_finished : P → Bool)
    (head : Bytes) (start done : P) : Type 0 where
  pub takes : (y : Bytes) → execute start (head ++ y) ≡ (done, length head)
  pub no_error : has_error done ≡ false
  pub finished : is_finished done ≡ true

-- A part of a piece that has all of the head is the head and what is held behind it.
head-take :
    (n : ℕ) (head y : Bytes)
    → length head ≤ n
    → take n (head ++ y) ≡ head ++ drop (length head) (take n (head ++ y))
head-take n head y few =
    sym (take-drop (length head) (take n (head ++ y)))
    ∙ ap (λ x. x ++ drop (length head) (take n (head ++ y)))
        (take-take (length head) n (head ++ y) few
          ∙ take-append_left (length head) head y (omega arith)
          ∙ take-all (length head) head (omega arith))

length-weight : (arrivals : List Arrival) → length arrivals ≤ weight arrivals
length-weight [] = omega arith
length-weight (piece p ∷ more) = omega (arith, length-weight more)
length-weight (failure ∷ more) = omega (arith, length-weight more)

pos-is_positive : (n : ℕ) → 0 < n → is_positive (pos n) ≡ true
pos-is_positive zero h = absurd (omega arith)
pos-is_positive (suc n) h = refl

module _ {P : Type 0} (execute : P → Bytes → P × ℕ) (has_error is_finished : P → Bool)
    (buff_size : ℕ) (head : Bytes) (start done : P)
    (head_taken : TakesHead execute has_error is_finished head start done)
    (small_room : buff_size < 2 ^ 31) where
  receive_head_round :
      (fuel n : ℕ) (p p' : P) (q : Bytes) (s t : Socket)
      → read_session (buff_size - 0) s ≡ (as_int (length q), q, t)
      → 0 < length q
      → length q ≤ buff_size
      → execute p q ≡ (p', n)
      → receive_head execute has_error is_finished buff_size (suc fuel) p [] s
        ≡ after_execute execute has_error is_finished buff_size p'
            (drop n q)
            t
            (receive_head execute has_error is_finished buff_size fuel p' (drop n q) t)
  unfolding receive_head
  receive_head_round fuel n p p' q s t e some_bytes few parsed =
      let go : P × ℕ → Socket → Option (GotHead P) = λ x u.
        after_execute execute has_error is_finished buff_size x.0 (drop x.1 q) u
          (receive_head execute has_error is_finished buff_size fuel x.0 (drop x.1 q) u) in
      let positive : is_positive (as_int (length q)) ≡ true =
        ap is_positive (as_int_small (length q) (omega arith))
        ∙ pos-is_positive (length q) some_bytes in
      ap
        (λ r.
          if is_positive r.0
          then after_execute execute has_error is_finished buff_size (execute p r.1).0
              (drop (execute p r.1).1 r.1) r.2
              (receive_head execute has_error is_finished buff_size fuel (execute p r.1).0
                (drop (execute p r.1).1 r.1) r.2)
          else some (none, close_socket r.2))
        e
      ∙ ap (λ b. if b then go (execute p q) t else some (none, close_socket t)) positive
      ∙ ap (λ x. go x t) parsed

  after_execute-done :
      (p : P) (held : Bytes) (t : Socket) (more : Option (GotHead P))
      → has_error p ≡ false
      → length held < buff_size
      → is_finished p ≡ true
      → after_execute execute has_error is_finished buff_size p held t more
        ≡ some (some (p, held), t)
  after_execute-done p held t more e h f =
      let z : (length held == buff_size) ≡ false = ground arith in rw (e, z, f) refl

  -- The loop takes one round for a head that stands whole in the first piece.
  receive_head-takes :
      (fuel : ℕ) (y : Bytes) (more : List Arrival) (s : Socket)
      → 0 < length head
      → length head ≤ buff_size
      → s.arrivals ≡ piece (head ++ y) ∷ more
      → s.connected ≡ true
      → (held : Bytes) × (receive_head execute has_error is_finished buff_size (suc fuel) start [] s
          ≡ some (
            some (done, held),
            record s { arrivals = behind (drop (buff_size - 0) (head ++ y)) more },
          ))
        × (held ++ (drop (buff_size - 0) (head ++ y) ++ arriving more) ≡ y ++ arriving more)
  receive_head-takes fuel y more s some_head fits e live =
      let n : ℕ = buff_size - 0 in
      let q : Bytes = take n (head ++ y) in
      let held : Bytes = drop (length head) q in
      let t : Socket = record s { arrivals = behind (drop n (head ++ y)) more } in
      let split : q ≡ head ++ held = head-take n head y (omega arith) in
      let lq : length q ≡ length head + length held = ap length split ∙ length-append head held in
      let few : length q ≤ buff_size = omega (arith, length-take n (head ++ y)) in
      (
        held,
        receive_head_round fuel (length head) start done q s t
              (recv_piece n (head ++ y) more s live e) (omega (arith, lq)) few
              (ap (execute start) split ∙ head_taken.takes held)
            ∙ after_execute-done done held t _ head_taken.no_error (omega (arith, lq))
                head_taken.finished,
        append_cancel head (held ++ (drop n (head ++ y) ++ arriving more)) (y ++ arriving more) (
            sym (append_assoc head held (drop n (head ++ y) ++ arriving more))
            ∙ ap (λ x. x ++ (drop n (head ++ y) ++ arriving more)) (sym split)
            ∙ sym (take-append_drop n (head ++ y) (arriving more))
            ∙ append_assoc head y (arriving more)),
      )

  module _ (content_length : P → ℤ) (request : P → HttpRequest) where
    -- `recvRequest` of a connected socket, on which a head that the parser takes arrives whole in the
    -- first piece, followed, in this piece and in others, by its body and perhaps more; no other
    -- piece is empty and no error comes, the head is not empty and fits the buffer, the body is not
    -- empty, and the buffer and the body are below 2 ^ 31 bytes: it ends, and gives the request of the
    -- head with this body, in whatever pieces the body comes.
    pub recv_request-reads :
        (fuel fuel' n : ℕ) (body rest y : Bytes) (more : List Arrival) (s : Socket)
        → 0 < length head
        → length head ≤ buff_size
        → content_length done ≡ pos (suc n)
        → length body ≡ suc n
        → suc n < 2 ^ 31
        → s.arrivals ≡ piece (head ++ y) ∷ more
        → y ++ arriving more ≡ body ++ rest
        → is_smooth more ≡ true
        → s.connected ≡ true
        → weight s.arrivals < fuel'
        → (t : Socket) × (recv_request execute has_error is_finished buff_size content_length
              request
              (suc fuel)
              fuel'
              start
              s
            ≡ some (some (keep_if_asked (record (request done) { body = body })), t))
    unfolding recv_request
    recv_request-reads fuel fuel' n body rest y more s some_head fits cl lb small e follows smooth
          live h =
        let left : Bytes = drop (buff_size - 0) (head ++ y) in
        let t : Socket = record s { arrivals = behind left more } in
        let (held, eo, behind_it) = receive_head-takes fuel y more s some_head fits e live in
        let stream : held ++ arriving t.arrivals ≡ body ++ rest =
          ap (λ x. held ++ x) (arriving-behind left more) ∙ behind_it ∙ follows in
        let total : length held + length (arriving t.arrivals) ≡ length body + length rest =
          sym (length-append held (arriving t.arrivals))
          ∙ ap length stream
          ∙ length-append body rest in
        let w : weight s.arrivals ≡ suc (length (head ++ y)) + weight more = ap weight e in
        let (u, eb, rest_left) =
          receive_body-reads fuel' (suc n) held t small (omega (arith, total))
            (is_smooth-behind left more ∙ smooth) live
            (omega (
              arith,
              length-weight t.arrivals,
              weight-behind left more,
              w,
              length-drop (buff_size - 0) (head ++ y),
            )) in
        let same : take (suc n) (held ++ arriving t.arrivals) ≡ body =
          ap (take (suc n)) stream
          ∙ take-append_left (suc n) body rest (omega arith)
          ∙ take-all (suc n) body (omega arith) in
        (
          u,
          ap (from_head execute has_error is_finished buff_size content_length request fuel') eo
              ∙ ap
                  (λ c.
                    behind_head execute has_error is_finished buff_size content_length request fuel'
                      done c held t)
                  cl
              ∙ ap
                  (with_body execute has_error is_finished buff_size content_length request
                    (request done))
                  (eb ∙ ap (λ b. some (some b, u)) same),
        )

-- ===== src/Http/Receiving/Bodies.antt =====
-- The body of a request in `recvRequest` of src/http/http_session.cc.
use co_lib.Prelude.{
  ℕ, zero, suc, ◌+◌, ◌-◌, ◌^◌, ◌≤◌, ◌<◌, leb, ltb, [], ◌++◌, ◌≡◌, refl, sym, ◌∙◌, ap, inl, inr,
  some, true, Bytes, length, take, drop, replicate, pos, arith, Bool-cases, leb→le, leb_false→lt,
  ltb→lt, ltb_false→le, length-replicate, take-append_left, take-append_right, append-nil, drop-all,
}
use co_lib.Http.Session.{Socket}
use co_lib.Http.Session.Reading.{arriving, is_smooth, read_fix_size-reads}
use co_lib.Http.Receiving.{read_rest, receive_body}

read_rest-positive :
    (held : Bytes) (n : ℕ) (bytes : Bytes) (t : Socket)
    → 0 < n
    → read_rest held (some (pos n, bytes, t)) ≡ some (some (held ++ bytes), t)
read_rest-positive held zero bytes t h = absurd (omega arith)
read_rest-positive held (suc n) bytes t h = refl

-- The body of `size` bytes is made of the first `size` bytes of what is held and of what arrives after it, on a
-- connected socket on which enough bytes arrive, in pieces that are not empty, and no error; what arrives
-- after the body is left.
pub receive_body-reads :
    (fuel size : ℕ) (held : Bytes) (s : Socket)
    → size < 2 ^ 31
    → size ≤ length held + length (arriving s.arrivals)
    → is_smooth s.arrivals ≡ true
    → s.connected ≡ true
    → length s.arrivals < fuel
    → (t : Socket) × (receive_body fuel size held s
        ≡ some (some (take size (held ++ arriving s.arrivals)), t))
      × (arriving t.arrivals ≡ drop (size - length held) (arriving s.arrivals))
unfolding receive_body
receive_body-reads fuel size held s bound enough smooth live h =
    elim (Bool-cases (leb (length held) size)) [
      | inr e ↦
          let lt : size < length held = leb_false→lt _ _ e in
          let z : 0 ≡ size - length held = omega arith in
          (
            s,
            rw e (
                ap (λ b. some (some b, s))
                  (sym (take-append_left size held (arriving s.arrivals) (omega arith)))),
            ap (λ n. drop n (arriving s.arrivals)) z,
          )
      | inl e ↦
          let le : length held ≤ size = leb→le _ _ e in
          let left : ℕ = size - length held in
          let split : take size (held ++ arriving s.arrivals)
              ≡ held ++ take left (arriving s.arrivals) =
            take-append_right size left held (arriving s.arrivals) (omega arith) in
          elim (Bool-cases (ltb 0 left)) [
            | inr q ↦
                let none_left : left ≡ 0 = omega (arith, ltb_false→le 0 left q) in
                (
                  s,
                  rw (e, q)
                      (ap (λ b. some (some b, s))
                        (sym (
                          split
                          ∙ ap (λ n. held ++ take n (arriving s.arrivals)) none_left
                          ∙ append-nil held))),
                  ap (λ n. drop n (arriving s.arrivals)) (sym none_left),
                )
            | inl q ↦
                let some_left : 0 < left = ltb→lt 0 left q in
                let zeros : Bytes = replicate left 0 in
                let lz : length zeros ≡ left = length-replicate left 0 in
                let (t, et, rest, smooth', live') =
                  read_fix_size-reads fuel left zeros s (omega arith) (omega arith) (omega arith)
                    smooth live h in
                let no_zeros : drop left zeros ≡ [] = drop-all left zeros (omega arith) in
                (
                  t,
                  rw (e, q, et, no_zeros)
                      (read_rest-positive held left _ t some_left
                        ∙ ap (λ b. some (some (held ++ b), t))
                            (append-nil (take left (arriving s.arrivals)))
                        ∙ ap (λ b. some (some b, t)) (sym split)),
                  rest,
                )
          ]
    ]

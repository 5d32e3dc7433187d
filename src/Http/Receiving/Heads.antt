-- ===== src/Http/Receiving/Heads.antt =====
-- The loop of `recvRequest` of src/http/http_session.cc: it ends, whatever the parser does and
-- whatever arrives.
use co_lib.Prelude.{
  ◌≢◌, ℕ, zero, suc, ◌+◌, ◌-◌, ◌≤◌, ◌<◌, ◌==◌, ==_false→ne, List, [], ◌∷◌, ◌++◌, ◌≡◌, refl, inl,
  inr, Option, some, none, Bool, true, false, if◌then◌else◌, Bytes, length, drop, ℤ, negsuc, arith,
  Bool-cases, length-append, length-drop, length-take,
}
use co_lib.Http.Session.{Arrival, piece, failure, Socket, behind, recv, read_session}
use co_lib.Http.Receiving.{is_positive, close_socket, GotHead, after_execute, receive_head}

-- The bytes that arrive, and a step more for each arrival.
abbrev pub weight : List Arrival → ℕ
weight [] = 0
weight (piece p ∷ more) = suc (length p) + weight more
weight (failure ∷ more) = suc (weight more)

pub weight-behind :
    (p : Bytes) (more : List Arrival) → weight (behind p more) ≤ suc (length p) + weight more
weight-behind [] more = omega arith
weight-behind (c ∷ p) more = omega arith

-- A `recv` that gives a byte or more takes it from what arrives, and gives at most what was asked.
recv-weight :
    (n : ℕ) (arrivals : List Arrival) (s : Socket)
    → is_positive (recv n arrivals s).0 ≡ true
    → (weight (recv n arrivals s).2.arrivals < weight arrivals) × (length (recv n arrivals s).1 ≤ n)
recv-weight n [] s h = absurd (cc)
recv-weight n (failure ∷ more) s h = absurd (cc)
recv-weight zero (piece p ∷ more) s h = absurd (cc)
recv-weight (suc n) (piece [] ∷ more) s h = absurd (cc)
recv-weight (suc n) (piece (c ∷ p) ∷ more) s h = (
  omega (arith, weight-behind (drop n p) more, length-drop n p),
  omega (arith, length-take (suc n) (c ∷ p)),
)

abbrev Shrinks : ℕ → Socket → ℤ × Bytes × Socket → Type 0
Shrinks n s r = (weight r.2.arrivals < weight s.arrivals) × (length r.1 ≤ n)

recv_if-Shrinks :
    (n : ℕ) (s : Socket) (b : Bool)
    → is_positive (if b then recv n s.arrivals s else (negsuc 0, [], s)).0 ≡ true
    → Shrinks n s (if b then recv n s.arrivals s else (negsuc 0, [], s))
recv_if-Shrinks n s true h = recv-weight n s.arrivals s h
recv_if-Shrinks n s false h = absurd (cc)

module _ {P : Type 0} (execute : P → Bytes → P × ℕ) (has_error is_finished : P → Bool)
    (buff_size : ℕ) where
  abbrev Ends : Option (GotHead P) → Type 0
  Ends o = (r : GotHead P) × (o ≡ some r)

  after_execute-Ends :
      (p : P) (held : Bytes) (s : Socket) (more : Option (GotHead P))
      → (length held ≢ buff_size → Ends more)
      → Ends (after_execute execute has_error is_finished buff_size p held s more)
  after_execute-Ends p held s more h = elim (Bool-cases (has_error p)) [
    | inl e ↦ ((none, close_socket s), rw e refl)
    | inr e ↦ elim (Bool-cases (length held == buff_size)) [
      | inl q ↦ ((none, close_socket s), rw (e, q) refl)
      | inr q ↦ elim (Bool-cases (is_finished p)) [
        | inl f ↦ ((some (p, held), s), rw (e, q, f) refl)
        | inr f ↦ let (r, er) = h (==_false→ne (length held) buff_size q) in (r, rw (e, q, f) er)
      ]
    ]
  ]

  receive_head-Ends :
      (fuel : ℕ) (p : P) (held : Bytes) (s : Socket)
      → length held ≤ buff_size
      → weight s.arrivals < fuel
      → Ends (receive_head execute has_error is_finished buff_size fuel p held s)
  unfolding receive_head
  receive_head-Ends zero p held s room h = absurd (omega arith)
  receive_head-Ends (suc fuel) p held s room h =
      let r : ℤ × Bytes × Socket = read_session (buff_size - length held) s in
      let next : P × ℕ = execute p (held ++ r.1) in
      elim (Bool-cases (is_positive r.0)) [
        | inr e ↦ ((none, close_socket r.2), rw e refl)
        | inl e ↦
            let (lighter, few) = recv_if-Shrinks (buff_size - length held) s s.connected e in
            let held1 : Bytes = drop next.1 (held ++ r.1) in
            let l1 : length (held ++ r.1) ≡ length held + length r.1 = length-append held r.1 in
            let more =
              receive_head-Ends fuel next.0 held1 r.2
                (omega (arith, l1, few, length-drop next.1 (held ++ r.1)))
                (omega (arith, lighter)) in
            let (o, eo) = after_execute-Ends next.0 held1 r.2 _ (λ k. more) in (o, rw e eo)
      ]

  -- The loop ends, whatever the parser does and whatever arrives: one round for each byte and each piece, and
  -- one more, are enough.
  pub receive_head-ends :
      (fuel : ℕ) (p : P) (s : Socket)
      → weight s.arrivals < fuel
      → (r : GotHead P) × (receive_head execute has_error is_finished buff_size fuel p [] s
          ≡ some r)
  receive_head-ends fuel p s h = receive_head-Ends fuel p [] s (omega arith) h

-- ===== src/Http/Session/Writing.antt =====
-- `writeFixSize` of src/http/http_session.cc, whatever the system takes at a time.
use co_lib.Prelude.{
  leb, leb→le, leb_false→lt, Bool-cases, inl, inr, take-all, ℕ, zero, suc, ◌+◌, ◌-◌, ◌^◌, ◌≤◌, ◌<◌,
  ◌==◌, if◌then◌else◌, List, [], ◌∷◌, ◌++◌, ◌≡◌, refl, sym, ◌∙◌, ap, subst, Option, some, none,
  Bool, true, false, Bytes, length, take, drop, ℤ, pos, negsuc, as_int, as_int_small, add_word,
  sub_word, arith, append_assoc, append-nil, take-split, drop-drop, take-take, length-take,
  length-drop, min,
}
use co_lib.Http.Session.{Socket, send, write_session, write_fix_loop, write_fix_size}

-- No error, and at least a byte each time.
abbrev pub is_willing : List (Option ℕ) → Bool
is_willing [] = true
is_willing (none ∷ more) = false
is_willing (some zero ∷ more) = false
is_willing (some (suc n) ∷ more) = is_willing more

write_fix_loop_round :
    (fuel size offset left n : ℕ) (buffer : Bytes) (s t : Socket)
    → size < 2 ^ 31
    → offset + left ≡ size
    → 0 < n
    → n ≤ left
    → write_session (take left (drop offset buffer)) s ≡ (as_int n, t)
    → write_fix_loop (suc fuel) size offset left buffer s
      ≡ write_fix_loop fuel size (offset + n) (left - n) buffer t
unfolding write_fix_loop
write_fix_loop_round fuel size offset left n buffer s t bound sum some_bytes few e =
    let small : as_int n ≡ pos n = as_int_small n (omega arith) in
    let z1 : (left == 0) ≡ false = ground arith in
    let z2 : (n == 0) ≡ false = ground arith in
    let add : add_word offset n ≡ offset + n = omega arith in
    let sub : sub_word left n ≡ left - n = omega arith in rw (e, small, z1, z2, add, sub) refl

-- What the loop sends: `left` bytes of the buffer from `offset` on.
WritesTo : ℕ → ℕ → ℕ → Bytes → Socket → Option (ℤ × Socket) → Type 0
WritesTo size offset left buffer s o =
    (t : Socket) × (o ≡ some (pos size, t))
    × (t.sent ≡ s.sent ++ take left (drop offset buffer))
    × (is_willing t.takes ≡ true)
    × (t.connected ≡ true)

-- The state of the loop: `takes` is what the system takes.
record InLoop (size offset left : ℕ) (buffer : Bytes) (takes : List (Option ℕ)) (s : Socket)
    : Type 0 where
  bound : size < 2 ^ 31
  sum : offset + left ≡ size
  room : size ≤ length buffer
  willing : is_willing takes ≡ true
  live : s.connected ≡ true
  same : s.takes ≡ takes

WritesTo-end :
    (fuel size offset left : ℕ) (buffer : Bytes) (takes : List (Option ℕ)) (s : Socket)
    → InLoop size offset left buffer takes s
    → left ≡ 0
    → 0 < fuel
    → WritesTo size offset left buffer s (write_fix_loop fuel size offset left buffer s)
unfolding write_fix_loop WritesTo
WritesTo-end zero size offset left buffer takes s i z h = absurd (omega arith)
WritesTo-end (suc fuel) size offset left buffer takes s i z h = (
  s,
  rw (z, as_int_small size i.bound) refl,
  rw z (sym (append-nil s.sent)),
  ap is_willing i.same ∙ i.willing,
  i.live,
)

take-min : (k n : ℕ) (xs : Bytes) → take k (take n xs) ≡ take (min k n) xs
take-min k n xs = elim (Bool-cases (leb k n)) [
  | inl e ↦ let le : k ≤ n = leb→le k n e in take-take k n xs le ∙ ap (λ j. take j xs) (omega arith)
  | inr e ↦
      let lt : n < k = leb_false→lt k n e in
      take-all k (take n xs) (omega (arith, length-take n xs)) ∙ ap (λ j. take j xs) (omega arith)
]

-- The rounds before come in front of the rest of the loop.
WritesTo-round :
    (size offset left n : ℕ) (buffer : Bytes) (s t : Socket) (o : Option (ℤ × Socket))
    → n ≤ left
    → t.sent ≡ s.sent ++ take n (drop offset buffer)
    → WritesTo size (offset + n) (left - n) buffer t o
    → WritesTo size offset left buffer s o
unfolding WritesTo
WritesTo-round size offset left n buffer s t o le e (u, eo, sent, willing, live) =
    let more = take (left - n) (drop (offset + n) buffer) in
    let split : take left (drop offset buffer) ≡ take n (drop offset buffer) ++ more =
      take-split left n (left - n) (drop offset buffer) (omega arith)
      ∙ ap (λ x. take n (drop offset buffer) ++ take (left - n) x)
          (drop-drop (offset + n) offset n buffer refl) in
    (
      u,
      eo,
      sent
          ∙ ap (λ x. x ++ more) e
          ∙ append_assoc s.sent (take n (drop offset buffer)) more
          ∙ ap (λ x. s.sent ++ x) (sym split),
      willing,
      live,
    )

write_session-send :
    (q : Bytes) (takes : List (Option ℕ)) (s : Socket)
    → s.connected ≡ true
    → s.takes ≡ takes
    → write_session q s ≡ send q takes s
write_session-send q takes s live same =
    ap (λ b. if b then send q s.takes s else (negsuc 0, s)) live ∙ ap (λ xs. send q xs s) same

write_fix_loop-WritesTo :
    (fuel size offset left : ℕ) (buffer : Bytes) (takes : List (Option ℕ)) (s : Socket)
    → InLoop size offset left buffer takes s
    → 1 + length takes < fuel
    → WritesTo size offset left buffer s (write_fix_loop fuel size offset left buffer s)
write_fix_loop-WritesTo zero size offset left buffer takes s i h = absurd (omega arith)
write_fix_loop-WritesTo (suc fuel) size offset zero buffer takes s i h =
    WritesTo-end (suc fuel) size offset zero buffer takes s i refl (omega arith)
write_fix_loop-WritesTo (suc fuel) size offset (suc left) buffer [] s i h =
    let asked : Bytes = take (suc left) (drop offset buffer) in
    let sum = i.sum in
    let room = i.room in
    let all : length asked ≡ suc left =
      omega (arith, length-take (suc left) (drop offset buffer), length-drop offset buffer) in
    let t : Socket = record s { sent = s.sent ++ asked } in
    subst (WritesTo size offset (suc left) buffer s)
      (sym (
        write_fix_loop_round fuel size offset (suc left) (suc left) buffer s t i.bound sum
          (omega arith) (omega arith)
          (write_session-send asked [] s i.live i.same ∙ ap (λ k. (as_int k, t)) all)))
      (WritesTo-round size offset (suc left) (suc left) buffer s t _ (omega arith) refl (
        WritesTo-end fuel size (offset + suc left) (suc left - suc left) buffer [] t
          (record {
            bound = i.bound;
            sum = omega arith;
            room = room;
            willing = refl;
            live = i.live;
            same = i.same;
          })
          (omega arith) (omega arith)))
write_fix_loop-WritesTo (suc fuel) size offset (suc left) buffer (none ∷ more) s i h =
    let willing = i.willing in absurd (cc)
write_fix_loop-WritesTo (suc fuel) size offset (suc left) buffer (some zero ∷ more) s i h =
    let willing = i.willing in absurd (cc)
write_fix_loop-WritesTo (suc fuel) size offset (suc left) buffer (some (suc k) ∷ more) s i h =
    let asked : Bytes = take (suc left) (drop offset buffer) in
    let n : ℕ = min (suc k) (suc left) in
    let sum = i.sum in
    let room = i.room in
    let all : length asked ≡ suc left =
      omega (arith, length-take (suc left) (drop offset buffer), length-drop offset buffer) in
    let taken : take (suc k) asked ≡ take n (drop offset buffer) =
      take-min (suc k) (suc left) (drop offset buffer) in
    let ln : length (take (suc k) asked) ≡ n = omega (arith, length-take (suc k) asked) in
    let t : Socket = record s { takes = more; sent = s.sent ++ take (suc k) asked } in
    subst (WritesTo size offset (suc left) buffer s)
      (sym (
        write_fix_loop_round fuel size offset (suc left) n buffer s t i.bound sum (omega arith)
          (omega arith)
          (write_session-send asked (some (suc k) ∷ more) s i.live i.same
            ∙ ap (λ j. (as_int j, t)) ln)))
      (WritesTo-round size offset (suc left) n buffer s t _ (omega arith)
        (ap (λ x. s.sent ++ x) taken)
        (write_fix_loop-WritesTo fuel size (offset + n) (suc left - n) buffer more t
          (record {
            bound = i.bound;
            sum = omega arith;
            room = room;
            willing = i.willing;
            live = i.live;
            same = refl;
          })
          (omega arith)))

-- `writeFixSize` of a connected socket, on which the system takes at least a byte each time and meets no
-- error: it returns `size`, and the system has taken the first `size` bytes of the buffer, once and in their
-- order, however many it takes at a time. A round for each time and two more are enough.
pub write_fix_size-writes :
    (fuel size : ℕ) (buffer : Bytes) (s : Socket)
    → size < 2 ^ 31
    → size ≤ length buffer
    → is_willing s.takes ≡ true
    → s.connected ≡ true
    → 1 + length s.takes < fuel
    → (t : Socket) × (write_fix_size fuel size buffer s ≡ some (pos size, t))
      × (t.sent ≡ s.sent ++ take size buffer)
      × (is_willing t.takes ≡ true)
      × (t.connected ≡ true)
unfolding write_fix_size WritesTo
write_fix_size-writes fuel size buffer s bound room willing live h =
    write_fix_loop-WritesTo fuel size 0 size buffer s.takes s
      (record {
        bound = bound;
        sum = omega arith;
        room = room;
        willing = willing;
        live = live;
        same = refl;
      })
      h

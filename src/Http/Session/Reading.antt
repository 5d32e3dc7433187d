-- ===== src/Http/Session/Reading.antt =====
-- `readFixSize` of src/http/http_session.cc: what it reads does not depend on the pieces.
use co_lib.Prelude.{
  ℕ, zero, suc, ◌+◌, ◌-◌, ◌^◌, ◌≤◌, ◌<◌, ◌==◌, leb, List, [], ◌∷◌, ◌++◌, ◌≡◌, refl, sym, ◌∙◌, ap,
  subst, inl, inr, Option, some, Bool, true, false, Bytes, length, take, drop, pos, as_int,
  as_int_small, add_word, sub_word, arith, Bool-cases, length-append, append_assoc, take-split,
  drop-drop, drop-all, leb→le, leb_false→lt, length-take, min,
}
use co_lib.Http.Session.Buffers.{
  take-drop, store_at_in, take-patched, drop-patched, length-patched, take-piece, drop-piece,
}
use co_lib.Http.Session.{
  Arrival, piece, failure, Socket, behind, read_session, Read, read_fix_loop, read_fix_size,
}

-- The bytes that the peer sends.
abbrev pub arriving : List Arrival → Bytes
arriving [] = []
arriving (piece p ∷ more) = p ++ arriving more
arriving (failure ∷ more) = arriving more

-- No error, and no empty piece.
abbrev pub is_smooth : List Arrival → Bool
is_smooth [] = true
is_smooth (piece [] ∷ more) = false
is_smooth (piece (c ∷ cs) ∷ more) = is_smooth more
is_smooth (failure ∷ more) = false

drop-taken : (n : ℕ) (p : Bytes) → drop (length (take n p)) p ≡ drop n p
drop-taken zero p = refl
drop-taken (suc n) [] = refl
drop-taken (suc n) (c ∷ p) = drop-taken n p

pub arriving-behind :
    (p : Bytes) (more : List Arrival) → arriving (behind p more) ≡ p ++ arriving more
arriving-behind [] more = refl
arriving-behind (c ∷ p) more = refl

pub is_smooth-behind :
    (p : Bytes) (more : List Arrival) → is_smooth (behind p more) ≡ is_smooth more
is_smooth-behind [] more = refl
is_smooth-behind (c ∷ p) more = refl

-- A round that reads the piece `q`.
read_fix_loop_round :
    (fuel size offset left : ℕ) (q buffer : Bytes) (s t : Socket)
    → size < 2 ^ 31
    → offset + left ≡ size
    → size ≤ length buffer
    → 0 < length q
    → length q ≤ left
    → read_session left s ≡ (as_int (length q), q, t)
    → read_fix_loop (suc fuel) size offset left buffer s
      ≡ read_fix_loop fuel size
          (offset + length q)
          (left - length q)
          (take offset buffer ++ (q ++ drop (offset + length q) buffer))
          t
unfolding read_fix_loop
read_fix_loop_round fuel size offset left q buffer s t bound sum room some_bytes few e =
    let small : as_int (length q) ≡ pos (length q) = as_int_small (length q) (omega arith) in
    let z1 : (left == 0) ≡ false = ground arith in
    let z2 : (length q == 0) ≡ false = ground arith in
    let add : add_word offset (length q) ≡ offset + length q = omega arith in
    let sub : sub_word left (length q) ≡ left - length q = omega arith in
    rw (e, small, z1, z2, store_at_in offset q buffer some_bytes (omega arith), add, sub) refl

-- What the loop leaves: the next `left` bytes of the peer in the buffer from `offset` on.
ReadsTo : ℕ → ℕ → ℕ → Bytes → Socket → Option Read → Type 0
ReadsTo size offset left buffer s o =
    (t : Socket) × (o
      ≡ some (
        pos size,
        take offset buffer ++ (take left (arriving s.arrivals) ++ drop size buffer),
        t,
      ))
    × (arriving t.arrivals ≡ drop left (arriving s.arrivals))
    × (is_smooth t.arrivals ≡ true)
    × (t.connected ≡ true)

read_fix_loop-done :
    (fuel size offset : ℕ) (buffer : Bytes) (s : Socket)
    → size < 2 ^ 31
    → offset ≡ size
    → is_smooth s.arrivals ≡ true
    → s.connected ≡ true
    → ReadsTo size offset 0 buffer s (read_fix_loop (suc fuel) size offset 0 buffer s)
unfolding read_fix_loop ReadsTo
read_fix_loop-done fuel size offset buffer s bound e smooth live =
    (s, rw (as_int_small size bound, e, take-drop size buffer) refl, refl, smooth, live)

-- The rounds before come in front of the rest of the loop.
ReadsTo-round :
    (size offset left n : ℕ) (q w buffer : Bytes) (s t : Socket) (o : Option Read)
    → n ≡ length q
    → offset + n ≤ size
    → size ≤ length buffer
    → n ≤ left
    → take n w ≡ q
    → arriving s.arrivals ≡ w
    → arriving t.arrivals ≡ drop n w
    → ReadsTo size
        (offset + n)
        (left - n)
        (take offset buffer ++ (q ++ drop (offset + n) buffer))
        t
        o
    → ReadsTo size offset left buffer s o
unfolding ReadsTo
ReadsTo-round size offset left n q w buffer s t o e h k le first es et (u, eo, ea, smooth, live) =
    let front : take (offset + n) (take offset buffer ++ (q ++ drop (offset + n) buffer))
        ≡ take offset buffer ++ q =
      take-patched offset n q buffer e (omega arith) in
    let back : drop size (take offset buffer ++ (q ++ drop (offset + n) buffer))
        ≡ drop size buffer =
      drop-patched size offset n q buffer e h k in
    let split : take left w ≡ q ++ take (left - n) (drop n w) =
      take-split left n (left - n) w (omega arith)
      ∙ ap (λ x. x ++ take (left - n) (drop n w)) first in
    let rest = take (left - n) (drop n w) in
    (
      u,
      eo
          ∙ rw (front, back, et, es, split)
              (ap (λ b. some (pos size, b, u))
                (append_assoc (take offset buffer) q (rest ++ drop size buffer)
                  ∙ ap (λ x. take offset buffer ++ x)
                      (sym (append_assoc q rest (drop size buffer))))),
      ea
          ∙ ap (drop (left - n)) et
          ∙ drop-drop left n (left - n) w (omega arith)
          ∙ ap (drop left) (sym es),
      smooth,
      live,
    )

-- What `recv` gives of the first piece, which is not empty.
pub recv_piece :
    (left : ℕ) (p : Bytes) (more : List Arrival) (s : Socket)
    → s.connected ≡ true
    → s.arrivals ≡ piece p ∷ more
    → read_session left s ≡ (
      as_int (length (take left p)),
      take left p,
      record s { arrivals = behind (drop left p) more },
    )
recv_piece left p more s live e = rw (live, e) refl

-- The last round, in which nothing is left to read.
ReadsTo-end :
    (fuel size offset left : ℕ) (buffer : Bytes) (s : Socket)
    → size < 2 ^ 31
    → offset ≡ size
    → left ≡ 0
    → is_smooth s.arrivals ≡ true
    → s.connected ≡ true
    → 0 < fuel
    → ReadsTo size offset left buffer s (read_fix_loop fuel size offset left buffer s)
ReadsTo-end zero size offset left buffer s bound e z smooth live enough = absurd (omega arith)
ReadsTo-end (suc fuel) size offset left buffer s bound e z smooth live enough =
    subst (λ n. ReadsTo size offset n buffer s (read_fix_loop (suc fuel) size offset n buffer s))
      (sym z) (read_fix_loop-done fuel size offset buffer s bound e smooth live)

-- The state of the loop: `arrivals` is what arrives.
record InLoop (size offset left : ℕ) (buffer : Bytes) (arrivals : List Arrival) (s : Socket)
    : Type 0 where
  bound : size < 2 ^ 31
  sum : offset + left ≡ size
  room : size ≤ length buffer
  enough : left ≤ length (arriving arrivals)
  smooth : is_smooth arrivals ≡ true
  live : s.connected ≡ true
  same : s.arrivals ≡ arrivals

read_fix_loop-ReadsTo :
    (fuel size offset left : ℕ) (buffer : Bytes) (arrivals : List Arrival) (s : Socket)
    → InLoop size offset left buffer arrivals s
    → length arrivals < fuel
    → ReadsTo size offset left buffer s (read_fix_loop fuel size offset left buffer s)
read_fix_loop-ReadsTo zero size offset left buffer arrivals s i h = absurd (omega arith)
read_fix_loop-ReadsTo (suc fuel) size offset zero buffer arrivals s i h =
    let sum = i.sum in
    read_fix_loop-done fuel size offset buffer s i.bound (omega arith)
      (ap is_smooth i.same ∙ i.smooth) i.live
read_fix_loop-ReadsTo (suc fuel) size offset (suc left) buffer [] s i h =
    absurd (omega (arith, i.enough))
read_fix_loop-ReadsTo (suc fuel) size offset (suc left) buffer (failure ∷ more) s i h =
    let smooth = i.smooth in absurd (cc)
read_fix_loop-ReadsTo (suc fuel) size offset (suc left) buffer (piece [] ∷ more) s i h =
    let smooth = i.smooth in absurd (cc)
read_fix_loop-ReadsTo (suc fuel) size offset (suc left) buffer (piece (c ∷ cs) ∷ more) s i h =
    let p : Bytes = c ∷ cs in
    let n : ℕ = length (take (suc left) p) in
    let t : Socket = record s { arrivals = behind (drop (suc left) p) more } in
    let sum = i.sum in
    let room = i.room in
    let ln : n ≡ min (suc left) (length p) = length-take (suc left) p in
    let b : Bytes = take offset buffer ++ (take (suc left) p ++ drop (offset + n) buffer) in
    let lb : length b ≡ length buffer =
      length-patched offset n (take (suc left) p) buffer refl (omega arith) in
    let smooth_t : is_smooth t.arrivals ≡ true =
      is_smooth-behind (drop (suc left) p) more ∙ i.smooth in
    let all : length (p ++ arriving more) ≡ length p + length (arriving more) =
      length-append p (arriving more) in
    let next : ReadsTo size (offset + n) (suc left - n) b t
        (read_fix_loop fuel size (offset + n) (suc left - n) b t) =
      elim (Bool-cases (leb (length p) (suc left))) [
        | inl e ↦
            let le : length p ≤ suc left = leb→le _ _ e in
            read_fix_loop-ReadsTo fuel size (offset + n) (suc left - n) b more t
              (record {
                bound = i.bound;
                sum = omega (arith, ln);
                room = omega (arith, lb);
                enough = omega (arith, ln, all, i.enough);
                smooth = i.smooth;
                live = i.live;
                same = ap (λ r. behind r more) (drop-all (suc left) p le);
              })
              (omega arith)
        | inr e ↦
            let lt : suc left < length p = leb_false→lt _ _ e in
            ReadsTo-end fuel size (offset + n) (suc left - n) b t i.bound (omega (arith, ln))
              (omega (arith, ln)) smooth_t i.live (omega arith)
      ] in
    subst (ReadsTo size offset (suc left) buffer s)
      (sym (
        read_fix_loop_round fuel size offset (suc left) (take (suc left) p) buffer s t i.bound sum
          room (omega (arith, ln)) (omega (arith, ln))
          (recv_piece (suc left) p more s i.live i.same)))
      (ReadsTo-round size offset (suc left) n (take (suc left) p) (p ++ arriving more) buffer s t _
        refl (omega (arith, ln)) room (omega (arith, ln)) (take-piece (suc left) p (arriving more))
        (ap arriving i.same)
        (arriving-behind (drop (suc left) p) more ∙ sym (drop-piece (suc left) p (arriving more)))
        next)

-- `readFixSize` of a connected socket, on which `size` bytes or more arrive, in pieces that are not
-- empty, and no error: it returns `size`, has put the first `size` bytes in the buffer, which is at least as
-- long, and leaves the others, in whatever pieces they came. A round for each piece and one more are
-- enough.
pub read_fix_size-reads :
    (fuel size : ℕ) (buffer : Bytes) (s : Socket)
    → size < 2 ^ 31
    → size ≤ length buffer
    → size ≤ length (arriving s.arrivals)
    → is_smooth s.arrivals ≡ true
    → s.connected ≡ true
    → length s.arrivals < fuel
    → (t : Socket) × (read_fix_size fuel size buffer s
        ≡ some (pos size, take size (arriving s.arrivals) ++ drop size buffer, t))
      × (arriving t.arrivals ≡ drop size (arriving s.arrivals))
      × (is_smooth t.arrivals ≡ true)
      × (t.connected ≡ true)
unfolding read_fix_size ReadsTo
read_fix_size-reads fuel size buffer s bound room enough smooth live h =
    read_fix_loop-ReadsTo fuel size 0 size buffer s.arrivals s
      (record {
        bound = bound;
        sum = omega arith;
        room = room;
        enough = enough;
        smooth = smooth;
        live = live;
        same = refl;
      })
      h

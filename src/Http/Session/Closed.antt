-- ===== src/Http/Session/Closed.antt =====
-- The loops of `readFixSize` and `writeFixSize` of src/http/http_session.cc on a socket that is closed.
use co_lib.Prelude.{
  ℕ, zero, suc, ◌+◌, ◌<◌, ◌==◌, if◌then◌else◌, [], ◌≡◌, refl, ap, none, false, Bytes, take, drop,
  negsuc, add_word, sub_word, arith, word_mod,
}
use co_lib.Http.Session.{
  Socket, recv, read_session, send, write_session, write_fix_loop, write_fix_size, read_fix_loop,
  read_fix_size,
}

read_session-closed :
    (n : ℕ) (s : Socket) → s.connected ≡ false → read_session n s ≡ (negsuc 0, [], s)
read_session-closed n s closed =
    ap (λ b. if b then recv n s.arrivals s else (negsuc 0, [], s)) closed

write_session-closed :
    (q : Bytes) (s : Socket) → s.connected ≡ false → write_session q s ≡ (negsuc 0, s)
write_session-closed q s closed = ap (λ b. if b then send q s.takes s else (negsuc 0, s)) closed

-- -1 as a `size_t` is taken from what is left: that grows by 1.
sub_word-last : (left : ℕ) → suc left < word_mod → sub_word left 18446744073709551615 ≡ suc left
sub_word-last left h = omega arith

read_fix_loop-spins :
    (fuel size offset left : ℕ) (buffer : Bytes) (s : Socket)
    → s.connected ≡ false
    → 0 < left
    → left + fuel < word_mod
    → read_fix_loop fuel size offset left buffer s ≡ none
unfolding read_fix_loop
read_fix_loop-spins zero size offset left buffer s closed some_left h = refl
read_fix_loop-spins (suc fuel) size offset left buffer s closed some_left h =
    let z : (left == 0) ≡ false = ground arith in
    let next =
      read_fix_loop-spins fuel size (add_word offset 18446744073709551615) (suc left) buffer s
        closed (omega arith) (omega arith) in
    rw (z, read_session-closed left s closed, sub_word-last left (omega arith)) next

write_fix_loop-spins :
    (fuel size offset left : ℕ) (buffer : Bytes) (s : Socket)
    → s.connected ≡ false
    → 0 < left
    → left + fuel < word_mod
    → write_fix_loop fuel size offset left buffer s ≡ none
unfolding write_fix_loop
write_fix_loop-spins zero size offset left buffer s closed some_left h = refl
write_fix_loop-spins (suc fuel) size offset left buffer s closed some_left h =
    let z : (left == 0) ≡ false = ground arith in
    let next =
      write_fix_loop-spins fuel size (add_word offset 18446744073709551615) (suc left) buffer s
        closed (omega arith) (omega arith) in
    rw
      (
        z,
        write_session-closed (take left (drop offset buffer)) s closed,
        sub_word-last left (omega arith),
      )
      next

-- On a socket that is closed, `readFixSize` and `writeFixSize` of `size` bytes, at least one, do not end
-- within 2 ^ 64 - `size` - 1 rounds.
pub read_fix_size-spins :
    (fuel size : ℕ) (buffer : Bytes) (s : Socket)
    → s.connected ≡ false
    → 0 < size
    → size + fuel < word_mod
    → (read_fix_size fuel size buffer s ≡ none) × (write_fix_size fuel size buffer s ≡ none)
unfolding read_fix_size write_fix_size
read_fix_size-spins fuel size buffer s closed some_left h = (
  read_fix_loop-spins fuel size 0 size buffer s closed some_left h,
  write_fix_loop-spins fuel size 0 size buffer s closed some_left h,
)

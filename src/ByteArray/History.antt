-- ===== src/ByteArray/History.antt =====
-- Any sequence of `write(const std::string&)` and `read` on a byte array of src/bytearray.cc,
-- against a plain queue of bytes.
use co_lib.Prelude.{
  ℕ, ◌+◌, ◌*◌, ◌<◌, ◌≡◌, refl, ◌∙◌, ap, List, [], ◌∷◌, ◌++◌, Option, some, none, true, arith,
  length, take, drop, word_mod, ◌^◌, Bool, ltb, ltb→lt, ◌&&◌, false, as_int, as_int_small,
}
use co_lib.ByteArray.{ByteArray, clip, write_string, read_int}
use co_lib.ByteArray.Invariant.{contents, IsValid}
use co_lib.ByteArray.Queue.{write_string-appends}
use co_lib.ByteArray.Read.{read-takes}

pub data Op : Type 0 where
  put : List ℕ → Op
  get : ℕ → Op

abbrev put_result : Option (ℕ × ByteArray) → Option ByteArray
put_result none = none
put_result (some (n, b)) = some b

abbrev reply : List ℕ → Option (List (List ℕ) × ByteArray) → Option (List (List ℕ) × ByteArray)
reply out none = none
reply out (some (outs, b)) = some (out ∷ outs, b)

-- A client's calls in order, and what its reads return.
unfoldable pub run : List Op → ByteArray → Option (List (List ℕ) × ByteArray)
run [] b = some ([], b)
run (put buf ∷ ops) b = elim (put_result (write_string buf b)) [
  | none ↦ none
  | some b' ↦ run ops b'
]
run (get size ∷ ops) b = elim (read_int true (as_int size) b) [
  | none ↦ none
  | some (n, out, b') ↦ reply out (run ops b')
]

-- The same calls on a queue.
unfoldable pub run_queue : List Op → List ℕ → List (List ℕ) × List ℕ
run_queue [] q = ([], q)
run_queue (put buf ∷ ops) q = run_queue ops (q ++ buf)
run_queue (get size ∷ ops) q =
    let (outs, q') = run_queue ops (drop size q) in (take size q ∷ outs, q')

-- The memory that the calls may ask for: the bytes written, and a block for each `write`.
unfoldable pub cost : ℕ → List Op → ℕ
cost base [] = 0
cost base (put buf ∷ ops) = length buf + base + cost base ops
cost base (get size ∷ ops) = cost base ops

-- Every length that the calls hand over is below 2^31, so that it is an `int`.
unfoldable pub are_int : List Op → Bool
are_int [] = true
are_int (put buf ∷ ops) = ltb (length buf) 2147483648 && are_int ops
are_int (get size ∷ ops) = ltb size 2147483648 && are_int ops

both_true : (a b : Bool) → (a && b) ≡ true → (a ≡ true) × (b ≡ true)
both_true true b h = (refl, h)
both_true false b h = absurd (ground arith)

read_int-takes :
    (size : ℕ) (b : ByteArray)
    → IsValid b
    → size < 2 ^ 31
    → (b' : ByteArray) × (read_int true (as_int size) b
        ≡ some (clip size b, take size (contents b), b'))
      × (contents b' ≡ drop size (contents b))
      × (length b'.nodes ≡ length b.nodes)
      × (b'.base_size ≡ b.base_size)
      × IsValid b'
unfolding read_int
read_int-takes size b v small = rw (as_int_small size small) (read-takes true size b v)

-- While every length that the calls hand over is below 2^31 and the memory that they may ask for
-- fits the address space, no write(string) or read of any sequence of them fails, every read returns
-- what the queue of bytes returns, and the array ends as a valid image of that queue.
pub run-refines :
    (ops : List Op) (b : ByteArray)
    → IsValid b
    → are_int ops ≡ true
    → length b.nodes * b.base_size + b.base_size + cost b.base_size ops < word_mod
    → (b' : ByteArray) × (run ops b ≡ some ((run_queue ops (contents b)).0, b'))
      × (contents b' ≡ (run_queue ops (contents b)).1)
      × IsValid b'
unfolding run run_queue cost are_int
run-refines [] b v small h = (b, refl, refl, v)
run-refines (put buf ∷ ops) b v small h =
    let (s, smalls) = both_true (ltb (length buf) 2147483648) (are_int ops) small in
    let (b', e, c, grow, base, v') =
      write_string-appends buf b v (ltb→lt (length buf) 2147483648 s) (omega arith) in
    let (b'', e', c', v'') =
      run-refines ops b' v' smalls (rw (ap (λ k. cost k ops) base) (omega (arith, grow, base))) in
    (
      b'',
      rw (e, run) (e' ∙ ap (λ q. some ((run_queue ops q).0, b'')) c),
      c' ∙ ap (λ q. (run_queue ops q).1) c,
      v'',
    )
run-refines (get size ∷ ops) b v small h =
    let (s, smalls) = both_true (ltb size 2147483648) (are_int ops) small in
    let (b', e, c, len, base, v') = read_int-takes size b v (ltb→lt size 2147483648 s) in
    let (b'', e', c', v'') = run-refines ops b' v' smalls (rw (len, base) h) in
    (
      b'',
      rw (e, run, e') (ap (λ q. some (take size (contents b) ∷ (run_queue ops q).0, b'')) c),
      c' ∙ ap (λ q. (run_queue ops q).1) c,
      v'',
    )

-- ===== src/ByteArray/Queue.antt =====
-- The byte array of src/bytearray.cc as a queue of bytes: what `write`, `updateNullWrite` and the
-- constructor do to `contents`.
use co_lib.Prelude.{
  ℕ, ◌+◌, ◌*◌, ◌<◌, ◌≤◌, ◌≡◌, refl, sym, ◌∙◌, ap, List, [], ◌∷◌, ◌++◌, some, none, arith, length,
  take, drop, word_mod, as_int_small, ◌^◌, take-all, take-take, length-replicate,
}
use co_lib.ByteArray.{
  ByteArray, copy_bytes, new_node, update_capacity, create, write, write_int, write_string,
  update_null_write,
}
use co_lib.ByteArray.Memory.{memory, write_pos, window-copy_bytes, length-memory}
use co_lib.ByteArray.Invariant.{contents, IsValid}
use co_lib.ByteArray.Capacity.{update_capacity-Grown, Grown-IsValid}
use co_lib.ByteArray.Write.{Appended, write-Appended}
use co_lib.ByteArray.Write.Copy.{length-piece}

-- The address space has room for the blocks, `size` bytes and one block more.
abbrev pub Fits : ℕ → ByteArray → Type 0
Fits size b = length b.nodes * b.base_size + size + b.base_size < word_mod

-- `write` of `size` bytes to a valid array with room in the address space returns `size`, appends
-- exactly the first `size` bytes of the buffer to the queue, takes at most `size` bytes and one block
-- more of memory, keeps the size of a block, and leaves the array valid.
pub write-appends :
    (buf : List ℕ) (size : ℕ) (b : ByteArray)
    → IsValid b
    → size ≤ length buf
    → Fits size b
    → (b' : ByteArray) × (write (some buf) size b ≡ some (size, b'))
      × (contents b' ≡ contents b ++ take size buf)
      × (length b'.nodes * b'.base_size ≤ length b.nodes * b.base_size + size + b.base_size)
      × (b'.base_size ≡ b.base_size)
      × IsValid b'
write-appends buf size b v h fit = (
  a.after,
  a.result,
  rw (w.data_size, w.read_index, w.bytes) (bytes ∙ same),
  a.growth,
  a.base_size,
  w.valid,
)
  where
    a : Appended (some buf) size b
    a = write-Appended (some buf) size b v h fit

    open a use {grown as g, grown-IsValid as gv, written as w}

    n : length (take size buf) ≡ size
    n = length-piece buf 0 size (omega arith)

    bytes :
        take
          (g.data_size + size)
          (drop g.read_index (copy_bytes (memory g.nodes) (write_pos g) (take size buf)))
        ≡ contents g ++ take size buf
    bytes =
        window-copy_bytes (memory g.nodes) g.read_index g.data_size _ (write_pos g) (take size buf)
          (omega (arith, gv.fill)) (omega (arith, n))
          (omega (arith, gv.fill, gv.room, a.enough, length-memory g.base_size g.nodes gv.sized))

    same : contents g ++ take size buf ≡ contents b ++ take size buf
    same = ap (λ c. c ++ take size buf) a.grown-contents

-- `write` of a whole string of less than 2 GB appends the string.
pub write_string-appends :
    (buf : List ℕ) (b : ByteArray)
    → IsValid b
    → length buf < 2 ^ 31
    → Fits (length buf) b
    → (b' : ByteArray) × (write_string buf b ≡ some (length buf, b'))
      × (contents b' ≡ contents b ++ buf)
      × (length b'.nodes * b'.base_size ≤ length b.nodes * b.base_size + length buf + b.base_size)
      × (b'.base_size ≡ b.base_size)
      × IsValid b'
unfolding write_string write_int
write_string-appends buf b v small fit =
    let (b', e, c, grow, base, v') = write-appends buf (length buf) b v (omega arith) fit in
    (
      b',
      rw (as_int_small (length buf) small) e,
      c ∙ ap (◌++◌ (contents b)) (take-all (length buf) buf (omega arith)),
      grow,
      base,
      v',
    )

-- `updateNullWrite` lets the queue grow by `size` bytes, less than 2 GB, behind the bytes that it had.
pub update_null_write-extends :
    (size : ℕ) (b : ByteArray)
    → IsValid b
    → size < 2 ^ 31
    → Fits size b
    → (b' : ByteArray) × (update_null_write size b ≡ some (size, b'))
      × (b'.data_size ≡ b.data_size + size)
      × (take b.data_size (contents b') ≡ contents b)
      × IsValid b'
unfolding update_null_write write_int
update_null_write-extends size b v small fit =
    let a = write-Appended none size b v tt fit in
    let w = a.written in
    (
      a.after,
      rw (as_int_small size small) a.result,
      w.data_size ∙ ap (λ d. d + size) a.grown-data_size,
      take-take b.data_size a.after.data_size (drop a.after.read_index (memory a.after.nodes))
            (omega (arith, w.data_size, a.grown-data_size))
          ∙ rw (w.read_index, w.bytes)
              (ap (λ d. take d (drop a.grown.read_index (memory a.grown.nodes)))
                  (sym a.grown-data_size)
                ∙ a.grown-contents),
      w.valid,
    )

-- The constructor yields an empty valid queue with room for `capacity` bytes.
pub create-IsValid :
    (base capacity : ℕ)
    → 0 < base
    → capacity + base + base < word_mod
    → (b : ByteArray) × (create base capacity ≡ some b)
      × (contents b ≡ [])
      × (capacity < b.capacity)
      × IsValid b
unfolding create
create-IsValid base capacity pos fit = created
  where
    first : ByteArray
    first = record {
      base_size = base;
      capacity = base;
      data_size = 0;
      write_index = 0;
      read_index = 0;
      write_node = 0;
      nodes = new_node base ∷ [];
    }

    first-IsValid : IsValid first
    first-IsValid = record {
      base_pos = pos;
      sized = (length-replicate base 0, refl, tt);
      read_in = pos;
      write_in = pos;
      fill = omega arith;
      room = omega arith;
      room_pos = pos;
      fits = omega arith;
    }

    created :
        (b : ByteArray) × (update_capacity capacity first ≡ some b)
        × (contents b ≡ [])
        × (capacity < b.capacity)
        × IsValid b
    created =
        let (b, e, g) = update_capacity-Grown capacity first first-IsValid (omega arith) in
        let (v, same) = Grown-IsValid capacity first first-IsValid g (omega arith) in
        (b, e, same, g.enough, v)

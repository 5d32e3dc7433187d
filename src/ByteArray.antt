-- ===== src/ByteArray.antt =====
-- src/bytearray.cc and include/bytearray.h: a byte queue over a chain of blocks of one size.
-- The blocks from `m_read_node` on, linked by `m_next`, are a list that ends with `m_end_node`, and
-- `m_write_node` is a position in it. `none` stands for a failed assertion, for a null pointer that
-- is followed, or for a loop that does not end within its fuel.
pub mod Memory
pub mod Invariant
pub mod Capacity
pub mod Queue
pub mod Read
pub mod History
pub mod Buffers
mod Tests
pub mod Write
use co_lib.Prelude.{
  ℕ, zero, suc, ◌+◌, ◌-◌, List, [], ◌∷◌, ◌++◌, Option, none, some, Bool, true, false, ltb, leb,
  ◌==◌, if◌then◌else◌, length, take, drop, replicate, add_word, sub_word, ℤ, pos, negsuc, as_int,
  as_word,
}

-- `ByteArray::Node`; its `m_next` is the next entry of the list that the node stands in.
pub record Node : Type 0 where
  pub ptr : List ℕ
  pub size : ℕ

-- The bytes of a new block are not initialised by the code; here they are 0.
abbrev pub new_node : ℕ → Node
new_node size = record { ptr = replicate size 0; size = size }

pub record ByteArray : Type 0 where
  pub base_size : ℕ
  pub capacity : ℕ
  pub data_size : ℕ
  pub write_index : ℕ
  pub read_index : ℕ
  pub write_node : ℕ
  pub nodes : List Node

-- One round of the loop of `updateCapacity`.
abbrev pub add_node : ByteArray → ByteArray
add_node b = record b {
  nodes = b.nodes ++ new_node b.base_size ∷ [];
  capacity = add_word b.capacity b.base_size;
}

pub update_capacity_loop : ℕ → ℕ → ByteArray → Option ByteArray
update_capacity_loop zero size b = none
update_capacity_loop (suc f) size b = elim (leb b.capacity size) [
  | true ↦ update_capacity_loop f size (add_node b)
  | false ↦ some b
]

-- Each round adds at least one byte, so `size + 1` rounds are enough where a block is not empty.
pub update_capacity : ℕ → ByteArray → Option ByteArray
unfolding update_capacity_loop
update_capacity size b = update_capacity_loop (suc (suc size)) size b

-- The constructor.
pub create : ℕ → ℕ → Option ByteArray
unfolding update_capacity
create base_size capacity = update_capacity capacity (record {
  base_size = base_size;
  capacity = base_size;
  data_size = 0;
  write_index = 0;
  read_index = 0;
  write_node = 0;
  nodes = new_node base_size ∷ [];
})

-- `memcpy(dst + i, src, n)`, with the `n` bytes of the source given.
abbrev pub copy_bytes : List ℕ → ℕ → List ℕ → List ℕ
copy_bytes [] i src = []
copy_bytes (x ∷ xs) (suc i) src = x ∷ copy_bytes xs i src
copy_bytes (x ∷ xs) zero [] = x ∷ xs
copy_bytes (x ∷ xs) zero (y ∷ ys) = y ∷ copy_bytes xs zero ys

-- The same into the block at position `k` of a chain.
abbrev pub copy_into : List Node → ℕ → ℕ → List ℕ → List Node
copy_into [] k i src = []
copy_into (nd ∷ nds) zero i src = record nd { ptr = copy_bytes nd.ptr i src } ∷ nds
copy_into (nd ∷ nds) (suc k) i src = nd ∷ copy_into nds k i src

-- The copy of `write`, which is left out where `buf` is null.
abbrev pub copy_from : Option (List ℕ) → ℕ → ℕ → ByteArray → ByteArray
copy_from none start n b = b
copy_from (some buf) start n b = record b {
  nodes = copy_into b.nodes b.write_node b.write_index (take n (drop start buf));
}

-- The locals of the loops of `write` and `read`: what was moved (`w_size`, `r_size`), and the
-- rest (`size`).
pub record WriteState : Type 0 where
  pub array : ByteArray
  pub moved : ℕ
  pub left : ℕ

pub write_all : Option (List ℕ) → WriteState → WriteState
write_all buf s =
    let b = copy_from buf s.moved s.left s.array in
    record {
      array = record b { write_index = s.array.write_index + s.left };
      moved = s.moved + s.left;
      left = 0;
    }

pub write_part : Option (List ℕ) → WriteState → WriteState
write_part buf s =
    let room = s.array.base_size - s.array.write_index in
    let b = copy_from buf s.moved room s.array in
    record {
      array = record b { write_index = 0; write_node = s.array.write_node + 1 };
      moved = s.moved + room;
      left = s.left - room;
    }

abbrev pub guard {ℓ} : {A : Type ℓ} → Bool → A → Option A
guard true a = some a
guard false a = none

-- One round of the loop of `write`, with its two assertions on the chain.
pub write_body : Option (List ℕ) → WriteState → Option WriteState
unfolding write_all write_part
write_body buf s =
    if ltb s.array.write_node (length s.array.nodes)
    then if ltb s.left (sub_word s.array.base_size s.array.write_index)
      then some (write_all buf s)
      else guard (ltb (s.array.write_node + 1) (length s.array.nodes)) (write_part buf s)
    else none

pub write_loop : ℕ → Option (List ℕ) → WriteState → Option WriteState
write_loop zero buf s = none
write_loop (suc f) buf s = elim (s.left == 0) [
  | true ↦ some s
  | false ↦ elim (write_body buf s) [ none ↦ none | some s' ↦ write_loop f buf s' ]
]

abbrev pub finish_write : WriteState → ℕ × ByteArray
finish_write s = (
  s.moved,
  record s.array {
    data_size = add_word s.array.data_size s.moved;
    capacity = sub_word s.array.capacity s.moved;
  },
)

-- `write(const char*, int)`, for a size that is not negative. It returns `w_size`.
pub write : Option (List ℕ) → ℕ → ByteArray → Option (ℕ × ByteArray)
unfolding write_loop write_body
write buf size b = elim (update_capacity size b) [
  | none ↦ none
  | some b' ↦ elim (write_loop (suc size) buf (record { array = b'; moved = 0; left = size })) [
    | none ↦ none
    | some s ↦ some (finish_write s)
  ]
]

-- `write(const char*, int)`. A size below 0 is a huge `size_t` to `updateCapacity`, and the loop of
-- `write` is not entered.
pub write_int : Option (List ℕ) → ℤ → ByteArray → Option (ℕ × ByteArray)
write_int buf (pos size) b = write buf size b
write_int buf (negsuc n) b = elim (update_capacity (as_word (negsuc n)) b) [
  | none ↦ none
  | some b' ↦ some (finish_write (record { array = b'; moved = 0; left = 0 }))
]

-- `write(const std::string&)`, which hands the length on as an `int`.
pub write_string : List ℕ → ByteArray → Option (ℕ × ByteArray)
unfolding write_int
write_string buf b = write_int (some buf) (as_int (length buf)) b

-- `updateNullWrite`, which hands a `size_t` on as an `int`.
pub update_null_write : ℕ → ByteArray → Option (ℕ × ByteArray)
unfolding write_int
update_null_write w_size b = write_int none (as_int w_size) b

-- `m_read_node = m_read_node->m_next; deallocNode(tmp);`, which moves the first block of the chain
-- to its end. A chain of one block would lose its read node.
pub dealloc_node : List Node → ByteArray → Option ByteArray
dealloc_node [] b = none
dealloc_node (nd ∷ []) b = none
dealloc_node (nd ∷ rest) b = some (record b {
  nodes = rest ++ nd ∷ [];
  write_node = if b.write_node == 0 then length rest else b.write_node - 1;
  capacity = add_word b.capacity nd.size;
})

-- The bytes that `memcpy(buf, m_read_node->m_ptr + m_read_index, n)` reads.
abbrev pub read_bytes : List Node → ℕ → ℕ → List ℕ
read_bytes [] i n = []
read_bytes (nd ∷ rest) i n = take n (drop i nd.ptr)

-- `out` is what was copied to `buf` so far.
pub record ReadState : Type 0 where
  pub array : ByteArray
  pub out : List ℕ
  pub moved : ℕ
  pub left : ℕ

abbrev pub HasBuffer : Type 0
HasBuffer = Bool

abbrev pub copy_out : HasBuffer → List ℕ → List ℕ → List ℕ
copy_out true out bytes = out ++ bytes
copy_out false out bytes = out

pub read_body : HasBuffer → ReadState → Option ReadState
unfolding dealloc_node
read_body has_buf s =
    let b = s.array in
    let room = sub_word b.base_size b.read_index in
    if ltb s.left room
    then guard (ltb 0 (length b.nodes)) (record {
      array = record b { read_index = b.read_index + s.left };
      out = copy_out has_buf s.out (read_bytes b.nodes b.read_index s.left);
      moved = s.moved + s.left;
      left = 0;
    })
    else elim (dealloc_node b.nodes (record b { read_index = 0 })) [
      | none ↦ none
      | some b' ↦ some (record {
        array = b';
        out = copy_out has_buf s.out (read_bytes b.nodes b.read_index room);
        moved = s.moved + room;
        left = s.left - room;
      })
    ]

pub read_loop : ℕ → HasBuffer → ReadState → Option ReadState
read_loop zero has_buf s = none
read_loop (suc f) has_buf s = elim (s.left == 0) [
  | true ↦ some s
  | false ↦ elim (read_body has_buf s) [ none ↦ none | some s' ↦ read_loop f has_buf s' ]
]

abbrev pub finish_read : ReadState → ℕ × List ℕ × ByteArray
finish_read s = (s.moved, s.out, record s.array { data_size = sub_word s.array.data_size s.moved })

-- `size = m_data_size > size ? size : m_data_size;`
abbrev pub clip : ℕ → ByteArray → ℕ
clip size b = if ltb size b.data_size then size else b.data_size

-- `read(char*, int)`, for a size that is not negative: `r_size`, and the bytes written to `buf`.
pub read : HasBuffer → ℕ → ByteArray → Option (ℕ × List ℕ × ByteArray)
unfolding read_loop read_body
read has_buf size b =
    let n = clip size b in
    elim (read_loop (suc n) has_buf (record { array = b; out = []; moved = 0; left = n })) [
      | none ↦ none
      | some s ↦ some (finish_read s)
    ]

-- The size that `read(char*, int)` keeps when its argument is below 0, which the comparison takes
-- for a huge `size_t`.
abbrev pub negative_clip : ℕ → ByteArray → ℤ
negative_clip n b = if ltb (as_word (negsuc n)) b.data_size then negsuc n else as_int b.data_size

-- `read(char*, int)`. Where the size that it keeps is below 0, its loop is not entered.
pub read_int : HasBuffer → ℤ → ByteArray → Option (ℕ × List ℕ × ByteArray)
unfolding read
read_int has_buf (pos size) b = read has_buf size b
read_int has_buf (negsuc n) b = elim (negative_clip n b) [
  | pos size ↦ read has_buf size b
  | negsuc m ↦ some (finish_read (record { array = b; out = []; moved = 0; left = 0 }))
]

-- `updateNullRead`, which hands a `size_t` on as an `int`.
pub update_null_read : ℕ → ByteArray → Option (ℕ × List ℕ × ByteArray)
unfolding read_int
update_null_read r_size b = read_int false (as_int r_size) b

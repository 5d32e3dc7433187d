-- ===== src/ByteArray/Buffers.antt =====
-- `getWriteBuffers` and `getReadBuffers` of src/bytearray.cc, which lend the blocks to vectored IO.
-- An `iovec` points into a block: `block` is the place of the block in the chain from `m_read_node`
-- on as it is when the call begins (after its `updateCapacity`), and `start` the offset in it.
use co_lib.Prelude.{
  ℕ, zero, suc, ◌+◌, ◌-◌, List, [], ◌∷◌, ◌++◌, Option, some, none, Bool, true, false, length, ltb,
  ◌==◌, if◌then◌else◌, add_word, sub_word,
}
use co_lib.ByteArray.{ByteArray, update_capacity, dealloc_node, clip, guard}

pub record IoVec : Type 0 where
  pub block : ℕ
  pub start : ℕ
  pub len : ℕ

-- The locals of both loops. `node` is `write_node` or `read_node`, `index` its index.
pub record BufferState : Type 0 where
  pub array : ByteArray
  pub node : ℕ
  pub index : ℕ
  pub left : ℕ
  pub buffers : List IoVec

abbrev IsUpdate : Type 0
IsUpdate = Bool

-- One round of the loop of `getWriteBuffers`; the block must be there.
pub write_buffer : BufferState → Option BufferState
write_buffer s =
    let room = sub_word s.array.base_size s.index in
    guard (ltb s.node (length s.array.nodes)) (
      if ltb s.left room
      then record s {
        index = s.index + s.left;
        left = 0;
        buffers = s.buffers ++ record { block = s.node; start = s.index; len = s.left } ∷ [];
      }
      else record s {
        node = s.node + 1;
        index = 0;
        left = s.left - room;
        buffers = s.buffers ++ record { block = s.node; start = s.index; len = room } ∷ [];
      })

pub write_buffers_loop : ℕ → BufferState → Option BufferState
write_buffers_loop zero s = none
write_buffers_loop (suc f) s = elim (s.left == 0) [
  | true ↦ some s
  | false ↦ elim (write_buffer s) [ none ↦ none | some s' ↦ write_buffers_loop f s' ]
]

abbrev finish_write_buffers : IsUpdate → ℕ → BufferState → ByteArray
finish_write_buffers false size s = s.array
finish_write_buffers true size s = record s.array {
  write_node = s.node;
  write_index = s.index;
  data_size = add_word s.array.data_size size;
  capacity = sub_word s.array.capacity size;
}

-- The result is `w_size`, the buffers and the array.
unfoldable pub get_write_buffers : ℕ → IsUpdate → ByteArray → Option (ℕ × List IoVec × ByteArray)
unfolding write_buffers_loop write_buffer
get_write_buffers size is_update b = elim (update_capacity size b) [
  | none ↦ none
  | some b' ↦
      elim (write_buffers_loop (suc size) (record {
        array = b';
        node = b'.write_node;
        index = b'.write_index;
        left = size;
        buffers = [];
      })) [ none ↦ none | some s ↦ some (size, s.buffers, finish_write_buffers is_update size s) ]
]

-- The step from a block to the next one, with `deallocNode` of the block left in an update.
leave_block : IsUpdate → BufferState → Option ByteArray
unfolding dealloc_node
leave_block false s = guard (ltb s.node (length s.array.nodes)) s.array
leave_block true s = dealloc_node s.array.nodes s.array

-- One round of the loop of `getReadBuffers`. An update gives the block that was read up; the chain
-- is then counted from the local `read_node` on, and `node` still counts from where it began.
pub read_buffer : IsUpdate → BufferState → Option BufferState
unfolding leave_block
read_buffer is_update s =
    let room = sub_word s.array.base_size s.index in
    if ltb s.left room
    then guard (ltb (if is_update then 0 else s.node) (length s.array.nodes)) (record s {
      index = s.index + s.left;
      left = 0;
      buffers = s.buffers ++ record { block = s.node; start = s.index; len = s.left } ∷ [];
    })
    else elim (leave_block is_update s) [
      | none ↦ none
      | some b ↦ some (record {
        array = b;
        node = s.node + 1;
        index = 0;
        left = s.left - room;
        buffers = s.buffers ++ record { block = s.node; start = s.index; len = room } ∷ [];
      })
    ]

pub read_buffers_loop : ℕ → IsUpdate → BufferState → Option BufferState
read_buffers_loop zero is_update s = none
read_buffers_loop (suc f) is_update s = elim (s.left == 0) [
  | true ↦ some s
  | false ↦ elim (read_buffer is_update s) [
    | none ↦ none
    | some s' ↦ read_buffers_loop f is_update s'
  ]
]

abbrev finish_read_buffers : IsUpdate → ℕ → BufferState → ByteArray
finish_read_buffers false size s = s.array
finish_read_buffers true size s = record s.array {
  read_index = s.index;
  data_size = sub_word s.array.data_size size;
}

-- The result is `r_size`, the buffers and the array.
unfoldable pub get_read_buffers : ℕ → IsUpdate → ByteArray → Option (ℕ × List IoVec × ByteArray)
unfolding read_buffers_loop read_buffer
get_read_buffers size is_update b =
    let n = clip size b in
    elim (read_buffers_loop (suc n) is_update
      (record { array = b; node = 0; index = b.read_index; left = n; buffers = [] })) [
        | none ↦ none
        | some s ↦ some (n, s.buffers, finish_read_buffers is_update n s)
      ]

-- ===== src/ByteArray/Invariant.antt =====
-- The representation invariant of `ByteArray`, and the queue of bytes that a byte array stands for.
use co_lib.Prelude.{
  ℕ, ◌+◌, ◌*◌, ◌<◌, ◌≡◌, List, arith, length, take, drop, word_mod, length-take, length-drop,
}
use co_lib.ByteArray.{ByteArray}
use co_lib.ByteArray.Memory.{memory, AllSized, write_pos, length-memory}

-- The bytes written and not yet read, oldest first.
abbrev pub contents : ByteArray → List ℕ
contents b = take b.data_size (drop b.read_index (memory b.nodes))

pub record IsValid (b : ByteArray) : Type 0 where
  pub base_pos : 0 < b.base_size
  pub sized : AllSized b.base_size b.nodes
  pub read_in : b.read_index < b.base_size
  pub write_in : b.write_index < b.base_size
  pub fill : b.read_index + b.data_size ≡ write_pos b
  pub room : write_pos b + b.capacity ≡ length b.nodes * b.base_size
  pub room_pos : 0 < b.capacity
  pub fits : length b.nodes * b.base_size < word_mod

pub length-contents : {b : ByteArray} → IsValid b → length (contents b) ≡ b.data_size
length-contents {b} v = omega (
  arith,
  length-take b.data_size (drop b.read_index (memory b.nodes)),
  length-drop b.read_index (memory b.nodes),
  length-memory b.base_size b.nodes v.sized,
)

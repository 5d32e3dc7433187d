-- ===== src/ByteArray/Write.antt =====
-- `write` and `updateNullWrite` of src/bytearray.cc: what a call does to the queue of bytes.
pub mod Copy
pub mod Round
pub mod Loop
use co_lib.Prelude.{
  ℕ, suc, ◌+◌, ◌-◌, ◌*◌, ◌<◌, ◌≤◌, ◌≡◌, refl, sym, ◌∙◌, ap, List, ◌++◌, Option, none, some, arith,
  length, take, drop, word_mod, add_word, sub_word, take-all, length-take, take-split, drop-drop,
}
use co_lib.ByteArray.{
  ByteArray, WriteState, write, write_string, update_null_write, write_loop, finish_write,
  update_capacity,
}
use co_lib.ByteArray.Memory.{memory, write_pos, window-copy_bytes, length-memory}
use co_lib.ByteArray.Invariant.{contents, IsValid, length-contents}
use co_lib.ByteArray.Capacity.{Grown, update_capacity-Grown, Grown-IsValid}
use Copy.{HasBytes, stored, length-piece}
use Round.{Ready, Wrote}
use Loop.{Done, write_loop-Done}

abbrev start_state : ℕ → ByteArray → WriteState
start_state size b = record { array = b; moved = 0; left = size }

-- The array after a call, as the loop's last state has it.
pub record Written (buf : Option (List ℕ)) (size : ℕ) (b b' : ByteArray) : Type 0 where
  pub valid : IsValid b'
  pub data_size : b'.data_size ≡ b.data_size + size
  pub read_index : b'.read_index ≡ b.read_index
  pub bytes : memory b'.nodes ≡ stored buf (memory b.nodes) (write_pos b) 0 size

module _ (buf : Option (List ℕ)) (size : ℕ) (b : ByteArray) (v : IsValid b) where
  start-Ready : HasBytes buf size → size < b.capacity → Ready buf (start_state size b)
  start-Ready h enough = record {
    base_pos = v.base_pos;
    sized = v.sized;
    write_in = v.write_in;
    has_room = omega (arith, v.room);
    has_bytes = HasBytes-zero buf h;
    fits = v.fits;
  }
    where
      HasBytes-zero : (bs : Option (List ℕ)) → HasBytes bs size → HasBytes bs (0 + size)
      HasBytes-zero none k = tt
      HasBytes-zero (some bs) k = omega arith

  finish-Written :
      size < b.capacity
      → (d : Done buf (suc size) (start_state size b)) → Written buf size b (finish_write d.final).1
  finish-Written enough d = record {
    valid = record {
      base_pos = r.base_pos;
      sized = r.sized;
      read_in = rw (w.base_size, w.read_index) v.read_in;
      write_in = r.write_in;
      fill =
          omega
            (arith, all, area, w.data_size, w.read_index, w.pos, v.fill, v.room, v.fits, enough);
      room = omega (arith, all, area, w.capacity, w.pos, v.room, v.fits, enough);
      room_pos = omega (arith, all, area, w.capacity, v.room, v.fits, enough);
      fits = r.fits;
    };
    data_size = omega (arith, all, w.data_size, v.fill, v.room, v.fits, enough);
    read_index = w.read_index;
    bytes = w.bytes ∙ ap (stored buf (memory b.nodes) (write_pos b) 0) (omega (arith, all));
  }
    where
      open d use {ready as r, wrote as w}

      all : d.final.moved ≡ size
      all = omega (arith, w.sum_left, d.none_left)

      area : length d.final.array.nodes * d.final.array.base_size ≡ length b.nodes * b.base_size
      area = rw (w.base_size, w.nodes_length)

pub record Appended (buf : Option (List ℕ)) (size : ℕ) (b : ByteArray) : Type 0 where
  pub grown : ByteArray
  pub after : ByteArray
  pub result : write buf size b ≡ some (size, after)
  pub grown-IsValid : IsValid grown
  pub grown-contents : contents grown ≡ contents b
  pub grown-data_size : grown.data_size ≡ b.data_size
  pub enough : size < grown.capacity
  pub base_size : after.base_size ≡ b.base_size
  pub growth :
      length after.nodes * after.base_size ≤ length b.nodes * b.base_size + size + b.base_size
  pub written : Written buf size grown after

write-eq_some :
    (buf : Option (List ℕ)) (size : ℕ) (b b' : ByteArray) (t : WriteState)
    → update_capacity size b ≡ some b'
    → write_loop (suc size) buf (start_state size b') ≡ some t
    → t.moved ≡ size
    → write buf size b ≡ some (size, (finish_write t).1)
unfolding write
write-eq_some buf size b b' t e f g = rw (write, e, f, ← g)

pub write-Appended :
    (buf : Option (List ℕ)) (size : ℕ) (b : ByteArray)
    → IsValid b
    → HasBytes buf size
    → length b.nodes * b.base_size + size + b.base_size < word_mod
    → Appended buf size b
write-Appended buf size b v h fit =
    let (b', e, g) = update_capacity-Grown size b v (omega arith) in
    let (v', same) = Grown-IsValid size b v g fit in
    let d =
      write_loop-Done buf (suc size) (start_state size b') (start-Ready buf size b' v' h g.enough)
        (omega arith) in
    let all : d.final.moved ≡ size = omega (arith, d.wrote.sum_left, d.none_left) in
    record {
      grown = b';
      after = (finish_write d.final).1;
      result = write-eq_some buf size b b' d.final e d.result all;
      grown-IsValid = v';
      grown-contents = same;
      grown-data_size = g.data_size;
      enough = g.enough;
      base_size = d.wrote.base_size ∙ g.base_size;
      growth =
          rw (d.wrote.base_size, d.wrote.nodes_length, g.base_size)
            (omega (arith, g.room, g.tight, v.room));
      written = finish-Written buf size b' v' g.enough d;
    }

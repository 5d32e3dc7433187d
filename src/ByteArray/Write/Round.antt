-- ===== src/ByteArray/Write/Round.antt =====
-- One round of the loop of `write` in src/bytearray.cc.
use co_lib.Prelude.{
  ℕ, ◌+◌, ◌-◌, ◌*◌, ◌≤◌, ◌<◌, ◌≡◌, inl, inr, List, Option, some, arith, length, word_mod, sub_word,
  ltb, Bool-cases, le-mul_pos, lt→ltb, ltb→lt, ltb_false→le, mul-lt_cancel,
}
use co_lib.ByteArray.{Node, WriteState, write_all, write_part, write_body}
use co_lib.ByteArray.Memory.{memory, AllSized, write_pos}
use co_lib.ByteArray.Write.Copy.{HasBytes, HasBytes-le, stored, copy_from-Copied}

-- The loop's invariant: there is room for the rest, and one byte more.
pub record Ready (buf : Option (List ℕ)) (s : WriteState) : Type 0 where
  pub base_pos : 0 < s.array.base_size
  pub sized : AllSized s.array.base_size s.array.nodes
  pub write_in : s.array.write_index < s.array.base_size
  pub has_room : write_pos s.array + s.left < length s.array.nodes * s.array.base_size
  pub has_bytes : HasBytes buf (s.moved + s.left)
  pub fits : length s.array.nodes * s.array.base_size < word_mod

-- What the loop did between two states.
pub record Wrote (buf : Option (List ℕ)) (s t : WriteState) : Type 0 where
  pub sum_left : t.moved + t.left ≡ s.moved + s.left
  pub pos : write_pos t.array + s.moved ≡ write_pos s.array + t.moved
  pub grows : s.moved ≤ t.moved
  pub nodes_length : length t.array.nodes ≡ length s.array.nodes
  pub base_size : t.array.base_size ≡ s.array.base_size
  pub read_index : t.array.read_index ≡ s.array.read_index
  pub capacity : t.array.capacity ≡ s.array.capacity
  pub data_size : t.array.data_size ≡ s.array.data_size
  pub bytes :
      memory t.array.nodes
      ≡ stored buf (memory s.array.nodes) (write_pos s.array) s.moved (t.moved - s.moved)

AllSized-eq : {a b : ℕ} (nds : List Node) → a ≡ b → AllSized b nds → AllSized a nds
AllSized-eq nds e h = rw e h

HasBytes-eq : (buf : Option (List ℕ)) {a b : ℕ} → a ≡ b → HasBytes buf b → HasBytes buf a
HasBytes-eq buf e h = rw e h

pub record Round (buf : Option (List ℕ)) (s t : WriteState) : Type 0 where
  pub ready : Ready buf t
  pub wrote : Wrote buf s t
  pub smaller : t.left < s.left

module _ (buf : Option (List ℕ)) (s : WriteState) (r : Ready buf s) where
  base-lt : s.array.base_size < word_mod
  base-lt = omega (
    arith,
    r.fits,
    r.has_room,
    le-mul_pos (length s.array.nodes) s.array.base_size (omega (arith, r.has_room)),
  )

  node-lt : s.array.write_node < length s.array.nodes
  node-lt =
      mul-lt_cancel s.array.write_node (length s.array.nodes) s.array.base_size
        (omega (arith, r.has_room))

  room_lem :
      sub_word s.array.base_size s.array.write_index ≡ s.array.base_size - s.array.write_index
  room_lem = omega (arith, base-lt, r.write_in)

  write_all-Round :
      s.left < s.array.base_size - s.array.write_index → 0 < s.left → Round buf s (write_all buf s)
  unfolding write_all
  write_all-Round lt pos =
      let c =
        copy_from-Copied buf s.moved s.left s.array r.sized r.has_bytes
          (omega (arith, r.write_in, lt)) in
      record {
        ready = record {
          base_pos = rw c.base_size r.base_pos;
          sized = AllSized-eq _ c.base_size c.sized;
          write_in = rw c.base_size (omega (arith, lt, r.write_in));
          has_room = rw (c.write_node, c.base_size, c.nodes_length) (omega (arith, r.has_room));
          has_bytes = HasBytes-eq buf (omega arith) r.has_bytes;
          fits = rw (c.base_size, c.nodes_length) r.fits;
        };
        wrote = record {
          sum_left = omega arith;
          pos = rw (c.write_node, c.base_size) (omega arith);
          grows = omega arith;
          nodes_length = c.nodes_length;
          base_size = c.base_size;
          read_index = c.read_index;
          capacity = c.capacity;
          data_size = c.data_size;
          bytes =
              rw c.bytes (let e : s.left ≡ s.moved + s.left - s.moved = omega arith in rw (← e));
        };
        smaller = pos;
      }

  write_part-Round :
      s.array.base_size - s.array.write_index ≤ s.left
      → Round buf s (write_part buf s) × (s.array.write_node + 1 < length s.array.nodes)
  unfolding write_part
  write_part-Round le =
      let n = s.array.base_size - s.array.write_index in
      let c =
        copy_from-Copied buf s.moved n s.array r.sized
          (HasBytes-le buf (s.moved + n) (s.moved + s.left) (omega arith) r.has_bytes)
          (omega (arith, r.write_in)) in
      (
        record {
          ready = record {
            base_pos = rw c.base_size r.base_pos;
            sized = AllSized-eq _ c.base_size c.sized;
            write_in = rw c.base_size r.base_pos;
            has_room = rw (c.base_size, c.nodes_length) (omega (arith, r.has_room, r.write_in, le));
            has_bytes = HasBytes-eq buf (omega (arith, le)) r.has_bytes;
            fits = rw (c.base_size, c.nodes_length) r.fits;
          };
          wrote = record {
            sum_left = omega (arith, le);
            pos = rw c.base_size (omega (arith, r.write_in));
            grows = omega arith;
            nodes_length = c.nodes_length;
            base_size = c.base_size;
            read_index = c.read_index;
            capacity = c.capacity;
            data_size = c.data_size;
            bytes = rw c.bytes (let e : n ≡ s.moved + n - s.moved = omega arith in rw (← e));
          };
          smaller = omega (arith, r.write_in, le);
        },
        mul-lt_cancel (s.array.write_node + 1) (length s.array.nodes) s.array.base_size
            (omega (arith, r.has_room, r.write_in, le)),
      )

  -- A round neither fails nor stands still.
  pub write_body-Round : 0 < s.left → (t : WriteState) × (write_body buf s ≡ some t) × Round buf s t
  unfolding write_body
  write_body-Round pos =
      elim (Bool-cases (ltb s.left (sub_word s.array.base_size s.array.write_index))) [
        | inl lt ↦ (
          write_all buf s,
          rw (lt→ltb _ _ node-lt, lt),
          write_all-Round (omega (arith, ltb→lt _ _ lt, room_lem)) pos,
        )
        | inr ge ↦
            let part = write_part-Round (omega (arith, ltb_false→le _ _ ge, room_lem)) in
            (write_part buf s, rw (lt→ltb _ _ node-lt, ge, lt→ltb _ _ part.1), part.0)
      ]

-- ===== src/ByteArray/Capacity.antt =====
-- `updateCapacity` of src/bytearray.cc.
use co_lib.Prelude.{
  ℕ, zero, suc, ◌+◌, ◌*◌, ◌≤◌, ◌<◌, ◌≡◌, refl, ◌∙◌, ap, sym, inl, inr, ◌⊎◌, List, [], ◌∷◌, ◌++◌,
  some, arith, length, take, drop, length-append, length-drop, length-replicate, word_mod, leb,
  leb→le, leb_false→lt, Bool-cases, append-nil, append_assoc, take-append_left, drop-append_left,
}
use co_lib.ByteArray.{ByteArray, add_node, update_capacity_loop, update_capacity, new_node}
use co_lib.ByteArray.Memory.{memory, AllSized, AllSized-append, memory-append, length-memory}
use co_lib.ByteArray.Invariant.{contents, IsValid}

-- The array has the room that was asked for, at the end of an unchanged memory.
pub record Grown (size : ℕ) (b b' : ByteArray) : Type 0 where
  pub base_size : b'.base_size ≡ b.base_size
  pub data_size : b'.data_size ≡ b.data_size
  pub write_index : b'.write_index ≡ b.write_index
  pub read_index : b'.read_index ≡ b.read_index
  pub write_node : b'.write_node ≡ b.write_node
  pub sized : AllSized b.base_size b'.nodes
  pub enough : size < b'.capacity
  pub grows : b.capacity ≤ b'.capacity
  pub tight : (b'.capacity ≤ b.capacity) ⊎ (b'.capacity ≤ size + b.base_size)
  pub room : length b'.nodes * b.base_size + b.capacity ≡ length b.nodes * b.base_size + b'.capacity
  pub fresh : List ℕ
  pub bytes : memory b'.nodes ≡ memory b.nodes ++ fresh

module _ (size : ℕ) (b : ByteArray) (sized : AllSized b.base_size b.nodes) where
  Grown-refl : size < b.capacity → Grown size b b
  Grown-refl h = record {
    base_size = refl;
    data_size = refl;
    write_index = refl;
    read_index = refl;
    write_node = refl;
    sized = sized;
    enough = h;
    grows = omega arith;
    tight = inl (omega arith);
    room = refl;
    fresh = [];
    bytes = sym (append-nil (memory b.nodes));
  }

  add_node-AllSized : AllSized b.base_size (add_node b).nodes
  add_node-AllSized =
      AllSized-append b.base_size b.nodes (new_node b.base_size ∷ []) sized
        (length-replicate b.base_size 0, refl, tt)

  -- A block is added only where the capacity is not enough yet.
  add_node-Grown :
      {b' : ByteArray}
      → b.capacity ≤ size
      → size + b.base_size < word_mod
      → Grown size (add_node b) b'
      → Grown size b b'
  add_node-Grown {b'} h fit g = record {
    base_size = g.base_size;
    data_size = g.data_size;
    write_index = g.write_index;
    read_index = g.read_index;
    write_node = g.write_node;
    sized = g.sized;
    enough = g.enough;
    grows = omega (arith, g.grows);
    tight = inr (omega (arith, g.tight));
    room = omega (
      arith,
      g.room,
      ap (λ (t : ℕ). t * b.base_size) (length-append b.nodes (new_node b.base_size ∷ [])),
    );
    fresh = (new_node b.base_size).ptr ++ g.fresh;
    bytes =
        g.bytes
        ∙ rw (memory-append b.nodes (new_node b.base_size ∷ []), append-nil)
            (append_assoc (memory b.nodes) (new_node b.base_size).ptr g.fresh);
  }

pub update_capacity_loop-Grown :
    (f size : ℕ) (b : ByteArray)
    → AllSized b.base_size b.nodes
    → 0 < b.base_size
    → size + b.base_size < word_mod
    → 0 < f
    → size + 1 < f + b.capacity
    → (b' : ByteArray) × (update_capacity_loop f size b ≡ some b') × Grown size b b'
unfolding update_capacity_loop
update_capacity_loop-Grown zero size b s p fit pos h = absurd (omega arith)
update_capacity_loop-Grown (suc f) size b s p fit pos h = elim (Bool-cases (leb b.capacity size)) [
  | inl le ↦
      let (b', e, g) =
        update_capacity_loop-Grown f size (add_node b) (add_node-AllSized size b s) p fit
          (omega (arith, leb→le _ _ le)) (omega (arith, leb→le _ _ le)) in
      (b', rw (le, update_capacity_loop) e, add_node-Grown size b s (leb→le _ _ le) fit g)
  | inr gt ↦ (b, rw (gt, update_capacity_loop), Grown-refl size b s (leb_false→lt _ _ gt))
]

module _ (size : ℕ) (b : ByteArray) (v : IsValid b) where
  -- With room for `size` more bytes and a block, `updateCapacity` ends.
  pub update_capacity-Grown :
      size + b.base_size < word_mod
      → (b' : ByteArray) × (update_capacity size b ≡ some b') × Grown size b b'
  unfolding update_capacity
  update_capacity-Grown fit =
      update_capacity_loop-Grown (suc (suc size)) size b v.sized v.base_pos fit (omega arith)
        (omega (arith, v.room_pos))

  pub Grown-IsValid :
      {b' : ByteArray}
      → Grown size b b'
      → length b.nodes * b.base_size + size + b.base_size < word_mod
      → IsValid b' × (contents b' ≡ contents b)
  Grown-IsValid {b'} g fit = (
    record {
      base_pos = rw g.base_size v.base_pos;
      sized = rw g.base_size g.sized;
      read_in = rw (g.read_index, g.base_size) v.read_in;
      write_in = rw (g.write_index, g.base_size) v.write_in;
      fill = rw (g.read_index, g.data_size, g.write_node, g.write_index, g.base_size) v.fill;
      room = rw (g.write_node, g.write_index, g.base_size) (omega (arith, g.room, v.room));
      room_pos = omega (arith, g.enough);
      fits = rw g.base_size (omega (arith, g.room, g.tight, v.room, v.fits));
    },
    rw (g.data_size, g.read_index, g.bytes)
        (ap (take b.data_size)
            (drop-append_left b.read_index (memory b.nodes) g.fresh (omega (arith, inside, v.room)))
          ∙ take-append_left b.data_size (drop b.read_index (memory b.nodes)) g.fresh
              (omega (arith, length-drop b.read_index (memory b.nodes), inside, v.fill, v.room))),
  )
    where
      inside : length (memory b.nodes) ≡ length b.nodes * b.base_size
      inside = length-memory b.base_size b.nodes v.sized

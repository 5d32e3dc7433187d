-- ===== src/ByteArray/Read/Round.antt =====
-- One round of the loop of `read` in src/bytearray.cc.
use co_lib.Prelude.{
  ℕ, suc, ◌+◌, ◌-◌, ◌*◌, ◌<◌, ◌≤◌, ◌≡◌, refl, ◌∙◌, ap, subst, inl, inr, List, [], ◌∷◌, ◌++◌, some,
  arith, length, take, drop, word_mod, sub_word, ltb, lt→ltb, ltb→lt, ltb_false→le, Bool-cases,
  le-mul_pos, pred-mul, mul-lt_cancel, length-append, length-take, length-drop,
}
use native.Mathlib.Decide.{dec_lt}
use co_lib.ByteArray.{Node, ReadState, HasBuffer, read_bytes, copy_out, read_body}
use co_lib.ByteArray.Memory.{
  memory, AllSized, AllSized-append, write_pos, memory-append, length-memory,
}
use co_lib.ByteArray.Read.State.{
  Ready, Round, rotated, split_first, dealloc_node_lem, window_first, window_next,
}

module _ (has_buf : HasBuffer) (s : ReadState) (r : Ready s) (pos : 0 < s.left) where
  open s use {array as b}
  open r use {valid as v}

  base-lt : b.base_size < word_mod
  base-lt =
      omega
        (arith, v.fits, le-mul_pos (length b.nodes) b.base_size (omega (arith, v.room, v.room_pos)))

  nodes_pos : 0 < length b.nodes
  nodes_pos = mul-lt_cancel 0 (length b.nodes) b.base_size (omega (arith, v.room, v.room_pos))

  room_lem : sub_word b.base_size b.read_index ≡ b.base_size - b.read_index
  room_lem = omega (arith, base-lt, v.read_in)

  within : ReadState
  within = record {
    array = record b { read_index = b.read_index + s.left };
    out = copy_out has_buf s.out (read_bytes b.nodes b.read_index s.left);
    moved = s.moved + s.left;
    left = 0;
  }

  module _ (nd : Node) (rest : List Node) (e : b.nodes ≡ nd ∷ rest) where
    nodes-AllSized : AllSized b.base_size (nd ∷ rest)
    nodes-AllSized = subst (AllSized b.base_size) e v.sized

    length-taken :
        (n : ℕ) → b.read_index + n ≤ b.base_size → length (read_bytes b.nodes b.read_index n) ≡ n
    length-taken n h = rw e (
        omega (
          arith,
          length-take n (drop b.read_index nd.ptr),
          length-drop b.read_index nd.ptr,
          nodes-AllSized.0,
        ))

    within-Round : s.left < b.base_size - b.read_index → Round has_buf s within
    unfolding within
    within-Round lt = record {
      ready = record {
        valid = record {
          base_pos = v.base_pos;
          sized = v.sized;
          read_in = omega (arith, lt);
          write_in = v.write_in;
          fill = omega (arith, v.fill, r.enough);
          room = v.room;
          room_pos = v.room_pos;
          fits = v.fits;
        };
        enough = omega (arith, r.enough);
      };
      took = record {
        taken = read_bytes b.nodes b.read_index s.left;
        queue = rw e (
            window_first nd.ptr (memory rest) b.read_index s.left (b.data_size - s.moved)
              (omega (arith, lt, nodes-AllSized.0)) (omega (arith, r.enough))
            ∙ ap
                (λ m.
                  take s.left (drop b.read_index nd.ptr)
                  ++ take m (drop (b.read_index + s.left) (nd.ptr ++ memory rest)))
                (omega arith));
        count = omega (arith, length-taken s.left (omega (arith, lt)));
        out = refl;
        sum_left = omega arith;
        data_size = refl;
        base_size = refl;
        nodes_length = refl;
      };
      smaller = pos;
    }

    module _ (le : b.base_size - b.read_index ≤ s.left) where
      abbrev room : ℕ
      room = b.base_size - b.read_index

      rest_length : length b.nodes ≡ suc (length rest)
      rest_length = ap length e

      area : length b.nodes * b.base_size ≡ length rest * b.base_size + b.base_size
      area = rw rest_length (grind arith)

      write_node_pos : 0 < b.write_node
      write_node_pos = elim (dec_lt 0 b.write_node) [
        | yes p ↦ p
        | no p ↦ absurd (
            omega (
              arith,
              v.fill,
              v.read_in,
              v.write_in,
              r.enough,
              le,
              ap (λ (t : ℕ). t * b.base_size) (let z : b.write_node ≡ 0 = omega arith in z),
            ))
      ]

      rest_pos : 0 < length rest
      rest_pos =
          mul-lt_cancel 0 (length rest) b.base_size
            (omega (arith, v.fill, v.read_in, r.enough, le, v.room, v.room_pos, area))

      passed : ReadState
      passed = record {
        array = rotated nd rest (record b { read_index = 0 });
        out = copy_out has_buf s.out (read_bytes b.nodes b.read_index room);
        moved = s.moved + room;
        left = s.left - room;
      }

      passed_capacity : passed.array.capacity ≡ b.capacity + b.base_size
      unfolding passed
      passed_capacity = omega (
        arith,
        nodes-AllSized.1,
        v.fill,
        v.read_in,
        r.enough,
        le,
        v.room,
        v.fits,
        area,
        pred-mul b.write_node b.base_size write_node_pos,
      )

      passed_node : passed.array.write_node ≡ b.write_node - 1
      unfolding passed
      passed_node = ground (arith, write_node_pos)

      passed_pos : write_pos passed.array + b.base_size ≡ write_pos b
      unfolding passed
      passed_pos = rw passed_node (omega (arith, pred-mul b.write_node b.base_size write_node_pos))

      passed_nodes : length passed.array.nodes ≡ length b.nodes
      unfolding passed
      passed_nodes = rw rest_length (omega (arith, length-append rest (nd ∷ [])))

      passed-Round : Round has_buf s passed
      unfolding passed
      passed-Round = record {
        ready = record {
          valid = record {
            base_pos = v.base_pos;
            sized =
                AllSized-append b.base_size rest (nd ∷ []) nodes-AllSized.2
                  (nodes-AllSized.0, nodes-AllSized.1, tt);
            read_in = v.base_pos;
            write_in = v.write_in;
            fill = omega (arith, passed_pos, v.fill, v.read_in, r.enough, le);
            room = rw (passed_capacity, passed_nodes) (omega (arith, passed_pos, v.room));
            room_pos = rw passed_capacity (omega (arith, v.base_pos));
            fits = rw passed_nodes v.fits;
          };
          enough = omega (arith, r.enough, le);
        };
        took = record {
          taken = read_bytes b.nodes b.read_index room;
          queue =
              rw (e, memory-append rest (nd ∷ []))
                (window_next nd.ptr (memory rest) (nd.ptr ++ []) b.read_index room
                    (b.data_size - s.moved) (omega (arith, v.read_in, nodes-AllSized.0))
                    (omega (arith, r.enough, le))
                    (omega (
                      arith,
                      length-memory b.base_size rest nodes-AllSized.2,
                      v.fill,
                      v.read_in,
                      r.enough,
                      le,
                      v.room,
                      area,
                    ))
                  ∙ ap
                      (λ m.
                        take room (drop b.read_index nd.ptr)
                        ++ take m (memory rest ++ (nd.ptr ++ [])))
                      (omega arith));
          count = omega (arith, length-taken room (omega (arith, v.read_in)));
          out = refl;
          sum_left = omega (arith, le);
          data_size = refl;
          base_size = refl;
          nodes_length = passed_nodes;
        };
        smaller = omega (arith, v.read_in, le);
      }

  -- A round neither fails nor stands still.
  pub read_body-Round : (t : ReadState) × (read_body has_buf s ≡ some t) × Round has_buf s t
  unfolding read_body within passed
  read_body-Round =
      let (nd, rest, e) = split_first b.nodes nodes_pos in
      elim (Bool-cases (ltb s.left (sub_word b.base_size b.read_index))) [
        | inl lt ↦ (
          within,
          rw (lt, lt→ltb 0 (length b.nodes) nodes_pos),
          within-Round nd rest e (omega (arith, ltb→lt _ _ lt, room_lem)),
        )
        | inr ge ↦
            let le : b.base_size - b.read_index ≤ s.left =
              omega (arith, ltb_false→le _ _ ge, room_lem) in
            (
              passed nd rest e le,
              rw (
                ge,
                dealloc_node_lem b.nodes (record b { read_index = 0 }) nd rest e
                    (rest_pos nd rest e le),
                room_lem,
              ),
              passed-Round nd rest e le,
            )
      ]

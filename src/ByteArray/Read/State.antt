-- ===== src/ByteArray/Read/State.antt =====
-- What one round of the loop of `read` in src/bytearray.cc may assume and leaves behind.
use co_lib.Prelude.{
  ℕ, ◌+◌, ◌-◌, ◌<◌, ◌≤◌, ◌≡◌, refl, sym, ◌∙◌, ap, List, [], ◌∷◌, ◌++◌, some, arith, length, take,
  drop, add_word, ◌==◌, take-split, drop-drop, take-append_left, drop-append_left,
  drop-append_right, length-drop, if◌then◌else◌,
}
use co_lib.ByteArray.{Node, ByteArray, ReadState, HasBuffer, dealloc_node, copy_out}
use co_lib.ByteArray.Invariant.{contents, IsValid}

-- The array as it would be if the loop ended here.
abbrev pub settled : ReadState → ByteArray
settled s = record s.array { data_size = s.array.data_size - s.moved }

pub record Ready (s : ReadState) : Type 0 where
  pub valid : IsValid (settled s)
  pub enough : s.moved + s.left ≤ s.array.data_size

-- What the loop did between two states: it moved `taken` from the front of the queue.
pub record Took (has_buf : HasBuffer) (s t : ReadState) : Type 0 where
  pub taken : List ℕ
  pub queue : contents (settled s) ≡ taken ++ contents (settled t)
  pub count : length taken + s.moved ≡ t.moved
  pub out : t.out ≡ copy_out has_buf s.out taken
  pub sum_left : t.moved + t.left ≡ s.moved + s.left
  pub data_size : t.array.data_size ≡ s.array.data_size
  pub base_size : t.array.base_size ≡ s.array.base_size
  pub nodes_length : length t.array.nodes ≡ length s.array.nodes

pub record Round (has_buf : HasBuffer) (s t : ReadState) : Type 0 where
  pub ready : Ready t
  pub took : Took has_buf s t
  pub smaller : t.left < s.left

abbrev pub rotated : Node → List Node → ByteArray → ByteArray
rotated nd rest b = record b {
  nodes = rest ++ nd ∷ [];
  write_node = if b.write_node == 0 then length rest else b.write_node - 1;
  capacity = add_word b.capacity nd.size;
}

pub split_first :
    (nds : List Node) → 0 < length nds → (nd : Node) × (rest : List Node) × (nds ≡ nd ∷ rest)
split_first [] h = absurd (omega arith)
split_first (nd ∷ rest) h = (nd, rest, refl)

pub dealloc_node_lem :
    (nds : List Node) (b : ByteArray) (nd : Node) (rest : List Node)
    → nds ≡ nd ∷ rest
    → 0 < length rest
    → dealloc_node nds b ≡ some (rotated nd rest b)
unfolding dealloc_node
dealloc_node_lem nds b nd [] e h = absurd (omega arith)
dealloc_node_lem nds b nd (x ∷ rest) e h = rw e

-- The window of `d` bytes from `i` on starts in the first block.
pub window_first :
    (xs ys : List ℕ) (i n d : ℕ)
    → i + n ≤ length xs
    → n ≤ d
    → take d (drop i (xs ++ ys)) ≡ take n (drop i xs) ++ take (d - n) (drop (i + n) (xs ++ ys))
window_first xs ys i n d h le =
    take-split d n (d - n) (drop i (xs ++ ys)) (omega arith)
    ∙ rw (
      drop-drop (i + n) i n (xs ++ ys) refl,
      drop-append_left i xs ys (omega arith),
      take-append_left n (drop i xs) ys (omega (arith, length-drop i xs)),
    )

-- Where the window covers the rest of the first block, it goes on at the start of the next.
pub window_next :
    (xs ys zs : List ℕ) (i n d : ℕ)
    → i + n ≡ length xs
    → n ≤ d
    → d - n ≤ length ys
    → take d (drop i (xs ++ ys)) ≡ take n (drop i xs) ++ take (d - n) (ys ++ zs)
window_next xs ys zs i n d h le fit =
    window_first xs ys i n d (omega arith) le ∙ ap (◌++◌ (take n (drop i xs))) rest
  where
    rest : take (d - n) (drop (i + n) (xs ++ ys)) ≡ take (d - n) (ys ++ zs)
    rest =
        rw (drop-append_right (i + n) 0 xs ys (omega arith))
          (sym (take-append_left (d - n) ys zs fit))

-- ===== src/ByteArray/Write/Copy.antt =====
-- The copies that the loop of `write` in src/bytearray.cc makes, one after the other.
use co_lib.Prelude.{
  ℕ, ◌+◌, ◌≤◌, ◌≡◌, refl, sym, ap, ◌∙◌, List, ◌++◌, Option, none, some, arith, length, take, drop,
  length-take, length-drop, take-split, drop-drop,
}
use co_lib.ByteArray.{ByteArray, copy_bytes, copy_from}
use co_lib.ByteArray.Memory.{
  memory, AllSized, AllSized-copy_into, write_pos, length-copy_into, memory-copy_into,
  copy_bytes-copy_bytes,
}

-- The caller's buffer holds the bytes that the call names.
abbrev pub HasBytes : Option (List ℕ) → ℕ → Type 0
HasBytes none n = Unit
HasBytes (some buf) n = n ≤ length buf

-- The memory after `n` bytes of the buffer, from `start` on, were copied to `p`.
abbrev pub stored : Option (List ℕ) → List ℕ → ℕ → ℕ → ℕ → List ℕ
stored none m p start n = m
stored (some buf) m p start n = copy_bytes m p (take n (drop start buf))

pub length-piece :
    (buf : List ℕ) (start n : ℕ) → start + n ≤ length buf → length (take n (drop start buf)) ≡ n
length-piece buf start n h = omega (arith, length-take n (drop start buf), length-drop start buf)

pub stored-stored :
    (buf : Option (List ℕ)) (m : List ℕ) (p q start mid n k t : ℕ)
    → HasBytes buf (start + t)
    → q ≡ p + n
    → mid ≡ start + n
    → t ≡ n + k
    → stored buf (stored buf m p start n) q mid k ≡ stored buf m p start t
stored-stored none m p q start mid n k t h e f g = refl
stored-stored (some buf) m p q start mid n k t h e f g =
    copy_bytes-copy_bytes m p q (take n (drop start buf)) (take k (drop mid buf))
      (omega (arith, length-piece buf start n (omega arith)))
    ∙ ap (copy_bytes m p) joined
  where
    joined : take n (drop start buf) ++ take k (drop mid buf) ≡ take t (drop start buf)
    joined =
        ap (λ ys. take n (drop start buf) ++ take k ys) (sym (drop-drop mid start n buf f))
        ∙ sym (take-split t n k (drop start buf) g)

-- What a copy of the loop leaves, whether there is a buffer or not.
pub record Copied (buf : Option (List ℕ)) (start n : ℕ) (b b' : ByteArray) : Type 0 where
  pub nodes_length : length b'.nodes ≡ length b.nodes
  pub sized : AllSized b.base_size b'.nodes
  pub bytes : memory b'.nodes ≡ stored buf (memory b.nodes) (write_pos b) start n
  pub base_size : b'.base_size ≡ b.base_size
  pub read_index : b'.read_index ≡ b.read_index
  pub capacity : b'.capacity ≡ b.capacity
  pub data_size : b'.data_size ≡ b.data_size
  pub write_node : b'.write_node ≡ b.write_node

pub copy_from-Copied :
    (buf : Option (List ℕ)) (start n : ℕ) (b : ByteArray)
    → AllSized b.base_size b.nodes
    → HasBytes buf (start + n)
    → b.write_index + n ≤ b.base_size
    → Copied buf start n b (copy_from buf start n b)
copy_from-Copied none start n b s h le = record {
  nodes_length = refl;
  sized = s;
  bytes = refl;
  base_size = refl;
  read_index = refl;
  capacity = refl;
  data_size = refl;
  write_node = refl;
}
copy_from-Copied (some buf) start n b s h le = record {
  nodes_length = length-copy_into b.nodes b.write_node b.write_index (take n (drop start buf));
  sized = AllSized-copy_into b.base_size b.nodes b.write_node b.write_index _ s;
  bytes =
      memory-copy_into b.base_size b.nodes b.write_node b.write_index (write_pos b)
        (take n (drop start buf)) s (omega (arith, length-piece buf start n h)) refl;
  base_size = refl;
  read_index = refl;
  capacity = refl;
  data_size = refl;
  write_node = refl;
}

pub HasBytes-le : (buf : Option (List ℕ)) (a b : ℕ) → a ≤ b → HasBytes buf b → HasBytes buf a
HasBytes-le none a b e h = tt
HasBytes-le (some buf) a b e h = omega arith

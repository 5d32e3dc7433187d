-- ===== src/Prelude/Text.antt =====
-- Texts as lists of bytes; a `std::string` is such a list.
use Prim.Native.Nat.{ℕ}
use Prim.Native.Char.{code}
use Prim.Native.String.{String}
use mathlib.Core.List.{List, [], ◌∷◌}
use mathlib.Core.Path.{◌≡◌, refl}
use native.Mathlib.Omega.{arith}
use mathlib.Core.Bool.{Bool, true, false, ◌&&◌}
use co_lib.Prelude.Tests.{◌==◌, if◌then◌else◌}

abbrev pub Bytes : Type 0
Bytes = List ℕ

-- The code points of a text: its bytes, since the texts of the program are ASCII.
abbrev pub codes : String → Bytes
codes String.[] = []
codes (String.◌∷◌ c s) = code c ∷ codes s

-- `c_str()`, as the functions of <string.h> read it: up to the first zero.
abbrev pub c_str : Bytes → Bytes
c_str [] = []
c_str (x ∷ xs) = let rest = c_str xs in if x == 0 then [] else x ∷ rest

abbrev pub bytes_eq : Bytes → Bytes → Bool
bytes_eq [] [] = true
bytes_eq [] (y ∷ ys) = false
bytes_eq (x ∷ xs) [] = false
bytes_eq (x ∷ xs) (y ∷ ys) = x == y && bytes_eq xs ys

-- `strncmp(p, s, strlen(p)) == 0`
abbrev pub is_prefix : Bytes → Bytes → Bool
is_prefix [] s = true
is_prefix (x ∷ p) [] = false
is_prefix (x ∷ p) (y ∷ s) = x == y && is_prefix p s

pub bytes_eq_refl : (u : Bytes) → bytes_eq u u ≡ true
bytes_eq_refl [] = refl
bytes_eq_refl (c ∷ u) = let ih = bytes_eq_refl u in ground arith

pub bytes_eq→eq : (a b : Bytes) → bytes_eq a b ≡ true → a ≡ b
bytes_eq→eq [] [] h = refl
bytes_eq→eq [] (y ∷ ys) h = absurd (ground arith)
bytes_eq→eq (x ∷ xs) [] h = absurd (ground arith)
bytes_eq→eq (x ∷ xs) (y ∷ ys) h = ground (arith, bytes_eq→eq xs ys)

-- ===== src/Prelude/Int.antt =====
-- `int` values; `negsuc n` is -(n + 1).
use Prim.Native.Nat.{ℕ, ◌-◌, ◌%◌, ◌^◌, ◌<◌}
use mathlib.Core.Path.{◌≡◌}
use mathlib.Core.Bool.{Bool, true, false}
use native.Mathlib.Omega.{arith}
use co_lib.Prelude.Tests.{ltb, leb, if◌then◌else◌}

pub data ℤ : Type 0 where
  pos : ℕ → ℤ
  negsuc : ℕ → ℤ

-- `int(n)` of a 64-bit word.
abbrev pub as_int : ℕ → ℤ
as_int n =
    let low = n % 4294967296 in if ltb low 2147483648 then pos low else negsuc (4294967295 - low)

pub as_int_small : (n : ℕ) → n < 2 ^ 31 → as_int n ≡ pos n
as_int_small n h = ground arith

-- `a <= b` of two `int`s.
abbrev pub leb_int : ℤ → ℤ → Bool
leb_int (pos a) (pos b) = leb a b
leb_int (pos a) (negsuc b) = false
leb_int (negsuc a) (pos b) = true
leb_int (negsuc a) (negsuc b) = leb b a

-- `size_t(i)` of an `int`.
abbrev pub as_word : ℤ → ℕ
as_word (pos n) = n
as_word (negsuc n) = 18446744073709551615 - n

-- ===== src/Prelude/Words.antt =====
-- `size_t` and `uint64_t` arithmetic, which wraps at 2 ^ 64.
use Prim.Native.Nat.{ℕ, zero, suc, ◌≤◌, ◌+◌, ◌-◌, ◌*◌, ◌%◌, ◌^◌, ◌<◌}
use mathlib.Core.Path.{◌≡◌}
use native.Mathlib.Omega.{arith}
use native.Mathlib.Decide.{dec_lt}

abbrev pub word_mod : ℕ
word_mod = 2 ^ 64

abbrev pub add_word : ℕ → ℕ → ℕ
add_word a b = (a + b) % word_mod

-- `-` on ℕ stops at 0, so the modulus is added first.
abbrev pub sub_word : ℕ → ℕ → ℕ
sub_word a b = (a + word_mod - b) % word_mod

pub mul-lt_cancel : (a b c : ℕ) → a * c < b * c → a < b
mul-lt_cancel a b c h = elim (dec_lt a b) [ yes p ↦ p | no p ↦ absurd (grind arith) ]

pub le-mul_pos : (k b : ℕ) → 0 < k * b → b ≤ k * b
le-mul_pos zero b h = absurd (omega arith)
le-mul_pos (suc k) b h = omega arith

-- `a - b` of words that does not go below 0.
pub sub_word_lem : (a b : ℕ) → b ≤ a → a < word_mod → sub_word a b ≡ a - b
sub_word_lem a b h k = omega arith

pub pred-mul : (k b : ℕ) → 0 < k → (k - 1) * b + b ≡ k * b
pred-mul zero b h = absurd (omega arith)
pred-mul (suc k) b h = grind arith

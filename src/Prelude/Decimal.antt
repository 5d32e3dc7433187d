-- ===== src/Prelude/Decimal.antt =====
-- Numbers as `operator<<` of a stream writes them: in decimal.
use Prim.Native.Nat.{ℕ, zero, suc, ◌+◌, ◌-◌, ◌*◌, ◌/◌, ◌%◌, ◌<◌}
use mathlib.Core.Path.{◌≡◌, refl}
use mathlib.Core.Logic.{inl, inr}
use mathlib.Core.List.{[], ◌∷◌, ◌++◌}
use native.Mathlib.Omega.{arith}
use co_lib.Prelude.Tests.{ltb, if◌then◌else◌, Bool-cases}
use co_lib.Prelude.Text.{Bytes}
use co_lib.Prelude.Int.{ℤ, pos, negsuc}

abbrev pub digits : ℕ → ℕ → Bytes
digits zero n = []
digits (suc fuel) n =
    let more = digits fuel (n / 10) in
    if ltb n 10 then (48 + n) ∷ [] else more ++ ((48 + n % 10) ∷ [])

abbrev pub decimal : ℕ → Bytes
decimal n = digits (suc n) n

abbrev pub decimal_int : ℤ → Bytes
decimal_int (pos n) = decimal n
decimal_int (negsuc n) = b'-' ∷ decimal (suc n)

-- The number that digits stand for.
abbrev pub value : ℕ → Bytes → ℕ
value acc [] = acc
value acc (c ∷ cs) = value (acc * 10 + (c - 48)) cs

value-append : (acc : ℕ) (xs ys : Bytes) → value acc (xs ++ ys) ≡ value (value acc xs) ys
value-append acc [] ys = refl
value-append acc (x ∷ xs) ys = value-append (acc * 10 + (x - 48)) xs ys

value-digits : (fuel n : ℕ) → n < fuel → value 0 (digits fuel n) ≡ n
value-digits zero n h = absurd (omega arith)
value-digits (suc fuel) n h = elim (Bool-cases (ltb n 10)) [
  | inl e ↦ rw e (omega arith)
  | inr e ↦
      let ten : 10 < suc n = ground arith in
      let ih : value 0 (digits fuel (n / 10)) ≡ n / 10 = value-digits fuel (n / 10) (omega arith) in
      let split : value 0 (digits fuel (n / 10) ++ ((48 + n % 10) ∷ []))
          ≡ value (value 0 (digits fuel (n / 10))) ((48 + n % 10) ∷ []) =
        value-append 0 (digits fuel (n / 10)) ((48 + n % 10) ∷ []) in
      rw (e, split, ih) (omega arith)
]

pub value-decimal : (n : ℕ) → value 0 (decimal n) ≡ n
value-decimal n = value-digits (suc n) n (omega arith)

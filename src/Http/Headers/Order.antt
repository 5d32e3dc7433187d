-- ===== src/Http/Headers/Order.antt =====
-- The comparator of the maps of src/http/http.cc is an order, as `std::map` needs it.
use co_lib.Prelude.{
  ◌≡◌, ◌≢◌, ◌⊎◌, sym, subst, refl, false, inl, inr, [], ◌∷◌, true, Bytes, arith, Bool-cases,
}
use co_lib.Http.Headers.{lex_less, seen, case_insensitive_less}
use co_lib.Http.Headers.Laws.{lex_less-same, lex_less-total}

lex_less_trans : (a b c : Bytes) → lex_less a b ≡ true → lex_less b c ≡ true → lex_less a c ≡ true
lex_less_trans a [] c h g = absurd (ground arith)
lex_less_trans a (y ∷ b) [] h g = absurd (ground arith)
lex_less_trans [] (y ∷ b) (z ∷ c) h g = refl
lex_less_trans (x ∷ a) (y ∷ b) (z ∷ c) h g = ground (arith, lex_less_trans a b c)

-- A list that is less than another is not the same, and the other is not less.
lex_less-apart : (x y : Bytes) → lex_less x y ≡ true → (lex_less y x ≡ false) × (x ≢ y)
lex_less-apart x y h = (
  elim (Bool-cases (lex_less y x)) [
    | inl e ↦ absurd (cc (lex_less_trans x y x h e, lex_less-same x))
    | inr e ↦ e
  ],
  (λ e.
      let same : lex_less x x ≡ true = subst (λ z. lex_less x z ≡ true) (sym e) h in
      absurd (cc (same, lex_less-same x))),
)

lex_less_cases :
    (x y : Bytes)
    → ((lex_less x y ≡ true) × (lex_less y x ≡ false) × (x ≢ y))
      ⊎ ((lex_less y x ≡ true) × (lex_less x y ≡ false) × (x ≢ y))
      ⊎ ((lex_less x y ≡ false) × (lex_less y x ≡ false) × (x ≡ y))
lex_less_cases x y = elim (Bool-cases (lex_less x y)) [
  | inl e ↦ let (not_less, apart) = lex_less-apart x y e in inl (e, not_less, apart)
  | inr e ↦ elim (Bool-cases (lex_less y x)) [
    | inl e' ↦
        let (not_less, apart) = lex_less-apart y x e' in
        inr (inl (e', not_less, λ p. apart (sym p)))
    | inr e' ↦ inr (inr (e, e', lex_less-total x y e e'))
  ]
]

-- `CaseInsensitiveLess` is an order as `std::map` needs one: it is transitive, and of any two keys
-- either the first is less, or the second is, and not both, or neither is, which is so exactly if
-- the keys are the same up to their first 0, but for the case of letters.
pub case_insensitive_less_lem :
    (a b c j k : Bytes)
    → case_insensitive_less a b ≡ true
    → case_insensitive_less b c ≡ true
    → (case_insensitive_less a c ≡ true)
      × (((case_insensitive_less j k ≡ true)
            × (case_insensitive_less k j ≡ false)
            × (seen j ≢ seen k))
          ⊎ ((case_insensitive_less k j ≡ true)
              × (case_insensitive_less j k ≡ false)
              × (seen j ≢ seen k))
          ⊎ ((case_insensitive_less j k ≡ false)
              × (case_insensitive_less k j ≡ false)
              × (seen j ≡ seen k)))
case_insensitive_less_lem a b c j k h g =
    (lex_less_trans (seen a) (seen b) (seen c) h g, lex_less_cases (seen j) (seen k))

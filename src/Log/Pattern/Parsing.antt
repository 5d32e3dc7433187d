-- ===== src/Log/Pattern/Parsing.antt =====
-- The patterns of src/log.cc: the loops end, and a printed list of parts is cut into these parts.
use co_lib.Prelude.{
  ℕ, zero, suc, ◌≤◌, ◌≡◌, refl, inl, inr, [], ◌∷◌, ◌++◌, Option, some, true, not, ◌&&◌, ◌==◌,
  length, Bytes, codes, arith, Bool-cases,
}
use co_lib.Log.Pattern.{
  text, format, is_alpha, percent, read_fmt, read_str, flush, starts_with_percent, Cut, cut,
  parse_pattern,
}

read_fmt-shrinks : (str fmt cs : Bytes) → length (read_fmt str fmt cs).rest ≤ length cs
unfolding read_fmt
read_fmt-shrinks str fmt [] = omega arith
read_fmt-shrinks str fmt (c ∷ cs) = elim (Bool-cases (c == b'}')) [
  | inl e ↦ rw e (omega arith)
  | inr e ↦ let le = read_fmt-shrinks str (fmt ++ (c ∷ [])) cs in rw e (omega (arith, le))
]

pub read_str-shrinks : (str cs : Bytes) → length (read_str str cs).rest ≤ length cs
unfolding read_str
read_str-shrinks str [] = omega arith
read_str-shrinks str (c ∷ cs) =
    elim (Bool-cases (not (is_alpha c) && not (c == b'{') && not (c == b'}'))) [
      | inl e ↦ rw e (omega arith)
      | inr e ↦ elim (Bool-cases (c == b'{')) [
        | inl e' ↦ let le = read_fmt-shrinks str [] cs in rw (e, e') (omega (arith, le))
        | inr e' ↦ let le = read_str-shrinks (str ++ (c ∷ [])) cs in rw (e, e') (omega (arith, le))
      ]
    ]

HasCut : Option Cut → Type 0
HasCut o = (r : Cut) × (o ≡ some r)

cut-ends : (fuel : ℕ) (nstr s : Bytes) → length s ≤ fuel → HasCut (cut fuel nstr s)
unfolding cut HasCut
cut-ends fuel nstr [] h = (_, refl)
cut-ends zero nstr (c ∷ cs) h = absurd (omega arith)
cut-ends (suc fuel) nstr (c ∷ cs) h =
    let (r, e) = cut-ends fuel (nstr ++ (c ∷ [])) cs (omega arith) in
    let (r1, e1) = cut-ends fuel [] (read_str [] cs).rest (omega (arith, read_str-shrinks [] cs)) in
    let (r2, e2) = cut-ends fuel nstr cs (omega arith) in
    elim (Bool-cases (c == percent)) [
      | inr p ↦ (r, rw p e)
      | inl p ↦ elim (Bool-cases (starts_with_percent cs)) [
        | inl q ↦ (r, rw (p, q) e)
        | inr q ↦ elim (Bool-cases (read_str [] cs).closed) [
          | inl k ↦ (
            (flush nstr ++ (format (read_str [] cs).str (read_str [] cs).fmt ∷ []) ++ r1.0, r1.1),
            rw (p, q, k, e1) refl,
          )
          | inr k ↦ ((text (codes "<<pattern_error>>") ∷ r2.0, true), rw (p, q, k, e2) refl)
        ]
      ]
    ]

-- The loops of `init` end for every pattern.
pub parse_pattern-ends : (p : Bytes) → (r : Cut) × (parse_pattern p ≡ some r)
unfolding parse_pattern HasCut
parse_pattern-ends p = cut-ends (length p) [] p (omega arith)

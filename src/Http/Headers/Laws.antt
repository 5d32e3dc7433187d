-- ===== src/Http/Headers/Laws.antt =====
-- What the setters and deleters of src/http/http.cc do to each key.
use co_lib.Prelude.{
  ◌≡◌, ◌↔◌, refl, ap, ◌∙◌, inl, inr, [], ◌∷◌, Option, some, none, Bool, true, false, if◌then◌else◌,
  Bytes, arith, Bool-cases,
}
use co_lib.Http.Headers.{
  lex_less, seen, case_insensitive_less, MapType, is_equivalent, find, assign, erase, HttpRequest,
  or_default, has, has_header, has_param, has_cookie, get_header, get_param, get_cookie, set_header,
  set_param, set_cookie, del_header, del_param, del_cookie,
}

pub lex_less-same : (a : Bytes) → lex_less a a ≡ false
lex_less-same [] = refl
lex_less-same (x ∷ xs) = ground (arith, lex_less-same xs)

pub lex_less-total : (a b : Bytes) → lex_less a b ≡ false → lex_less b a ≡ false → a ≡ b
lex_less-total [] [] h g = refl
lex_less-total [] (y ∷ ys) h g = absurd (ground arith)
lex_less-total (x ∷ xs) [] h g = absurd (ground arith)
lex_less-total (x ∷ xs) (y ∷ ys) h g = ground (arith, lex_less-total xs ys)

equivalent-seen : (a b : Bytes) → is_equivalent a b ≡ true → seen a ≡ seen b
equivalent-seen a b h = lex_less-total (seen a) (seen b) (ground arith) (ground arith)

seen-equivalent : (a b : Bytes) → seen a ≡ seen b → is_equivalent a b ≡ true
seen-equivalent a b e = rw (e, lex_less-same (seen b)) refl

-- Equivalent keys compare alike.
alike : (a b k : Bytes) → is_equivalent a b ≡ true → is_equivalent a k ≡ is_equivalent b k
alike a b k h = let e : seen a ≡ seen b = equivalent-seen a b h in rw e refl

alike_right : (j a k : Bytes) → is_equivalent a k ≡ true → is_equivalent j k ≡ is_equivalent j a
alike_right j a k h = let e : seen a ≡ seen k = equivalent-seen a k h in rw e refl

find-assign :
    (key val j : Bytes) (m : MapType)
    → find j (assign key val m) ≡ (if is_equivalent j key then some val else find j m)
unfolding find assign
find-assign key val j [] = refl
find-assign key val j ((k, v) ∷ m) = elim (Bool-cases (case_insensitive_less key k)) [
  | inl e ↦ rw e refl
  | inr e ↦ elim (Bool-cases (case_insensitive_less k key)) [
    | inl e' ↦
        let apart : is_equivalent key k ≡ false = rw (e, e') refl in
        rw (e, e')
          (elim (Bool-cases (is_equivalent j key)) [
            | inl t ↦
                let apart_j : is_equivalent j k ≡ false = alike j key k t ∙ apart in
                rw (apart_j, t) (find-assign key val j m ∙ rw t refl)
            | inr t ↦ elim (Bool-cases (is_equivalent j k)) [
              | inl u ↦ rw (u, t) refl
              | inr u ↦ rw (u, t) (find-assign key val j m ∙ rw t refl)
            ]
          ])
    | inr e' ↦
        let same : is_equivalent key k ≡ true = rw (e, e') refl in
        rw (e, e')
          (elim (Bool-cases (is_equivalent j key)) [
            | inl t ↦ let u : is_equivalent j k ≡ true = alike j key k t ∙ same in rw (t, u) refl
            | inr t ↦
                let u : is_equivalent j k ≡ false = alike_right j key k same ∙ t in rw (t, u) refl
          ])
  ]
]

find-erase :
    (key j : Bytes) (m : MapType)
    → find j (erase key m) ≡ (if is_equivalent j key then none else find j m)
unfolding find erase
find-erase key j [] = elim (Bool-cases (is_equivalent j key)) [
  | inl e ↦ rw e refl
  | inr e ↦ rw e refl
]
find-erase key j ((k, v) ∷ m) = elim (Bool-cases (is_equivalent key k)) [
  | inl e ↦ rw e (
      find-erase key j m ∙ elim (Bool-cases (is_equivalent j key)) [
        | inl t ↦ rw t refl
        | inr t ↦ let u : is_equivalent j k ≡ false = alike_right j key k e ∙ t in rw (t, u) refl
      ])
  | inr e ↦ rw e (elim (Bool-cases (is_equivalent j key)) [
    | inl t ↦
        let u : is_equivalent j k ≡ false = alike j key k t ∙ e in
        rw (t, u) (find-erase key j m ∙ rw t refl)
    | inr t ↦ elim (Bool-cases (is_equivalent j k)) [
      | inl u ↦ rw (u, t) refl
      | inr u ↦ rw (u, t) (find-erase key j m ∙ rw t refl)
    ]
  ])
]

-- The comparator takes two keys for the same exactly if their texts, up to the first zero byte, are
-- the same but for the case of letters.
pub is_equivalent_iff : (a b : Bytes) → (is_equivalent a b ≡ true) ↔ (seen a ≡ seen b)
is_equivalent_iff a b = (equivalent-seen a b, seen-equivalent a b)

or_default-if :
    (b : Bool) (def val : Bytes) (o : Option Bytes)
    → or_default def (if b then some val else o) ≡ (if b then val else or_default def o)
or_default-if true def val o = refl
or_default-if false def val o = refl

has-if :
    (b : Bool) (o : Option Bytes)
    → has (if b then none else o) ≡ (if b then (false, none) else has o)
has-if true o = refl
has-if false o = refl

module _ (key j : Bytes) (r : HttpRequest) where
  -- After a header, a parameter or a cookie is set, a key that is the same but for the case of
  -- letters has the new value, and every other key of that map has the value it had.
  pub get-set :
      (val def : Bytes)
      → (get_header j def (set_header key val r)
          ≡ (if is_equivalent j key then val else get_header j def r))
        × (get_param j def (set_param key val r)
            ≡ (if is_equivalent j key then val else get_param j def r))
        × (get_cookie j def (set_cookie key val r)
            ≡ (if is_equivalent j key then val else get_cookie j def r))
  unfolding get_header set_header get_param set_param get_cookie set_cookie
  get-set val def = (of_map r.headers, of_map r.params, of_map r.cookies)
    where
      of_map :
          (m : MapType)
          → or_default def (find j (assign key val m))
            ≡ (if is_equivalent j key then val else or_default def (find j m))
      of_map m =
          ap (or_default def) (find-assign key val j m)
          ∙ or_default-if (is_equivalent j key) def val (find j m)

  -- After a header, a parameter or a cookie is deleted, the map has no key that is the same but for
  -- the case of letters, and has every other key as before.
  pub has-del :
      (has_header j (del_header key r)
        ≡ (if is_equivalent j key then (false, none) else has_header j r))
      × (has_param j (del_param key r)
          ≡ (if is_equivalent j key then (false, none) else has_param j r))
      × (has_cookie j (del_cookie key r)
          ≡ (if is_equivalent j key then (false, none) else has_cookie j r))
  unfolding has_header del_header has_param del_param has_cookie del_cookie
  has-del = (of_map r.headers, of_map r.params, of_map r.cookies)
    where
      of_map :
          (m : MapType)
          → has (find j (erase key m))
            ≡ (if is_equivalent j key then (false, none) else has (find j m))
      of_map m = ap has (find-erase key j m) ∙ has-if (is_equivalent j key) (find j m)

-- ===== src/Http/Method/Names.antt =====
-- Names of methods and their numbers, there and back.
use co_lib.Prelude.{
  bytes_eq→eq, ℕ, zero, suc, ◌+◌, ◌≤◌, ◌<◌, ◌≡◌, refl, sym, ◌∙◌, ap, inl, inr, subst, List, [], ◌∷◌,
  ◌++◌, append-nil, ◌≢◌, ◌-◌, Bool, true, false, not, ◌&&◌, ◌||◌, ◌==◌, get_elem?, Bytes, c_str,
  bytes_eq, is_prefix, arith, Bool-cases,
}
use co_lib.Http.Method.{
  HttpMethod, method_strings, invalid_method, first_from, string_to_http_method,
  chars_to_http_method, http_method_to_string, or_unknown,
}

-- Two names differ at a place that both have.
abbrev differ : Bytes → Bytes → Bool
differ [] s = false
differ (x ∷ p) [] = false
differ (x ∷ p) (y ∷ s) = not (x == y) || differ p s

differ-is_prefix : (p s rest : Bytes) → differ p s ≡ true → is_prefix p (s ++ rest) ≡ false
differ-is_prefix [] s rest h = absurd (ground arith)
differ-is_prefix (x ∷ p) [] rest h = absurd (ground arith)
differ-is_prefix (x ∷ p) (y ∷ s) rest h = ground (arith, differ-is_prefix p s rest)

is_prefix-append : (p rest : Bytes) → is_prefix p (p ++ rest) ≡ true
is_prefix-append [] rest = refl
is_prefix-append (x ∷ p) rest = ground (arith, is_prefix-append p rest)

-- No name has a zero byte, so that `c_str` keeps it.
abbrev no_zero : Bytes → Bool
no_zero [] = true
no_zero (x ∷ xs) = not (x == 0) && no_zero xs

c_str-append : (s rest : Bytes) → no_zero s ≡ true → c_str (s ++ rest) ≡ s ++ c_str rest
c_str-append [] rest h = refl
c_str-append (x ∷ s) rest h = rw (c_str-append s rest (ground arith)) (ground arith)

-- What is to be checked of the table: entry `m` differs from each one before it.
abbrev tells_apart : ℕ → List Bytes → Bytes → Bool
tells_apart zero (s ∷ names) name = bytes_eq s name && no_zero name
tells_apart (suc m) (s ∷ names) name = differ s name && tells_apart m names name
tells_apart m [] name = false

abbrev all_apart : ℕ → ℕ → List Bytes → Bool
all_apart zero m names = true
all_apart (suc k) m names =
    tells_apart m names (or_unknown (get_elem? names m)) && all_apart k (suc m) names

table_apart : all_apart 34 0 method_strings ≡ true
table_apart = refl

all_apart_sound :
    (k m j : ℕ) (names : List Bytes)
    → all_apart k m names ≡ true
    → m ≤ j
    → j < m + k
    → tells_apart j names (or_unknown (get_elem? names j)) ≡ true
all_apart_sound zero m j names h le lt = absurd (omega arith)
all_apart_sound (suc k) m j names h le lt = elim (Bool-cases (m == j)) [
  | inl e ↦
      let e' : m ≡ j = ground arith in
      subst (λ i. tells_apart i names (or_unknown (get_elem? names i)) ≡ true) e' (ground arith)
  | inr e ↦ all_apart_sound k (suc m) j names (ground arith) (ground arith) (omega arith)
]

first_from-prefix :
    (n m k : ℕ) (names : List Bytes) (name rest : Bytes)
    → k ≡ n + m
    → tells_apart m names name ≡ true
    → first_from n (λ s. is_prefix s (name ++ rest)) names ≡ k
unfolding first_from
first_from-prefix n m k [] name rest e h = absurd (ground arith)
first_from-prefix n zero k (s ∷ names) name rest e h =
    let e' : s ≡ name = bytes_eq→eq s name (ground arith) in
    rw e' (rw (is_prefix-append name rest) (omega arith))
first_from-prefix n (suc m) k (s ∷ names) name rest e h =
    rw (differ-is_prefix s name rest (ground arith))
      (first_from-prefix (suc n) m k names name rest (omega arith) (ground arith))

differ-bytes_eq : (p s : Bytes) → differ p s ≡ true → bytes_eq p s ≡ false
differ-bytes_eq [] s h = absurd (ground arith)
differ-bytes_eq (x ∷ p) [] h = absurd (ground arith)
differ-bytes_eq (x ∷ p) (y ∷ s) h = ground (arith, differ-bytes_eq p s)

first_from-bytes_eq :
    (n m k : ℕ) (names : List Bytes) (name : Bytes)
    → k ≡ n + m
    → tells_apart m names name ≡ true
    → first_from n (λ s. bytes_eq s name) names ≡ k
unfolding first_from
first_from-bytes_eq n m k [] name e h = absurd (ground arith)
first_from-bytes_eq n zero k (s ∷ names) name e h =
    let same : bytes_eq s name ≡ true = ground arith in rw same (omega arith)
first_from-bytes_eq n (suc m) k (s ∷ names) name e h =
    rw (differ-bytes_eq s name (ground arith))
      (first_from-bytes_eq (suc n) m k names name (omega arith) (ground arith))

tells_apart-no_zero :
    (m : ℕ) (names : List Bytes) (name : Bytes)
    → tells_apart m names name ≡ true
    → no_zero name ≡ true
tells_apart-no_zero m [] name h = absurd (ground arith)
tells_apart-no_zero zero (s ∷ names) name h = ground arith
tells_apart-no_zero (suc m) (s ∷ names) name h = tells_apart-no_zero m names name (ground arith)

module _ (m : HttpMethod) (known : m < invalid_method) where
  apart : tells_apart m method_strings (http_method_to_string m) ≡ true
  unfolding http_method_to_string
  apart = all_apart_sound 34 0 m method_strings table_apart (omega arith) (omega arith)

  -- The parser finds a method by its name at the start of its input, whatever comes behind it.
  pub chars_to_http_method-name :
      (rest : Bytes) → chars_to_http_method (http_method_to_string m ++ rest) ≡ m
  unfolding chars_to_http_method
  chars_to_http_method-name rest =
      rw
        (c_str-append (http_method_to_string m) rest (tells_apart-no_zero m method_strings _ apart))
        (first_from-prefix 0 m m method_strings (http_method_to_string m) (c_str rest) (omega arith)
          apart)

  -- A method is found by its name.
  pub string_to_http_method-name : string_to_http_method (http_method_to_string m) ≡ m
  unfolding string_to_http_method
  string_to_http_method-name =
      rw whole (first_from-bytes_eq 0 m m method_strings _ (omega arith) apart)
    where
      whole : c_str (http_method_to_string m) ≡ http_method_to_string m
      whole =
          ap c_str (sym (append-nil (http_method_to_string m)))
          ∙ c_str-append (http_method_to_string m) [] (tells_apart-no_zero m method_strings _ apart)
          ∙ append-nil (http_method_to_string m)

first_from_sound :
    (n m : ℕ) (names : List Bytes) (name : Bytes)
    → first_from n (λ s. bytes_eq s name) names ≡ m
    → m ≢ invalid_method
    → (n ≤ m) × (or_unknown (get_elem? names (m - n)) ≡ name)
unfolding first_from
first_from_sound n m [] name e h = absurd (h (sym e))
first_from_sound n m (s ∷ names) name e h = elim (Bool-cases (bytes_eq s name)) [
  | inl t ↦
      let e' : n ≡ m = rw t at e in
      let z : 0 ≡ m - n = omega arith in (omega arith, rw (← z) (bytes_eq→eq s name t))
  | inr f ↦
      let (le, same) = first_from_sound (suc n) m names name (rw f at e) h in
      let z : suc (m - suc n) ≡ m - n = omega arith in (omega arith, rw (← z) same)
]

string_to_http_method_lem :
    (s : Bytes) → first_from 0 (λ t. bytes_eq t (c_str s)) method_strings ≡ string_to_http_method s
unfolding string_to_http_method
string_to_http_method_lem s = refl

name_of_found :
    (m : HttpMethod) (name : Bytes)
    → first_from 0 (λ t. bytes_eq t name) method_strings ≡ m
    → m ≢ invalid_method
    → http_method_to_string m ≡ name
unfolding http_method_to_string
name_of_found m name e h =
    let z : m - 0 ≡ m = omega arith in
    ap (λ k. or_unknown (get_elem? method_strings k)) (sym z)
    ∙ (first_from_sound 0 m method_strings name e h).1

-- A method that `StringToHttpMethod` finds has the text that was asked for, up to its first zero
-- byte, as its name.
pub string_to_http_method_sound :
    (s : Bytes)
    → string_to_http_method s ≢ invalid_method
    → http_method_to_string (string_to_http_method s) ≡ c_str s
string_to_http_method_sound s h =
    name_of_found (string_to_http_method s) (c_str s) (string_to_http_method_lem s) h

-- ===== src/Http/Status/Texts.antt =====
-- Which text a status has.
use co_lib.Prelude.{
  ℕ, zero, suc, ◌≡◌, refl, ap, List, [], ◌∷◌, Option, some, none, Bool, true, false, ◌&&◌, ltb,
  ◌==◌, get_elem?, Bytes, arith,
}
use co_lib.Http.Status.{HttpStatus, status_map, text_of, text_or_unknown, http_status_to_string}

-- The codes of a table are all above `n`, and increase.
abbrev increases : ℕ → List (HttpStatus × Bytes) → Bool
increases n [] = true
increases n ((code, text) ∷ table) = ltb n code && increases code table

status_map-increases : increases 0 status_map ≡ true
status_map-increases = refl

abbrev code_of : Option (HttpStatus × Bytes) → ℕ
code_of none = 0
code_of (some (code, text)) = code

abbrev text_in : Option (HttpStatus × Bytes) → Option Bytes
text_in none = none
text_in (some (code, text)) = some text

code_increases :
    (n i : ℕ) (table : List (HttpStatus × Bytes)) (s : HttpStatus) (text : Bytes)
    → increases n table ≡ true
    → get_elem? table i ≡ some (s, text)
    → ltb n s ≡ true
code_increases n i [] s text h e = let z : text_in none ≡ some text = ap text_in e in absurd (cc)
code_increases n zero ((c, t) ∷ table) s text h e = let e' : c ≡ s = ap code_of e in ground arith
code_increases n (suc i) ((c, t) ∷ table) s text h e =
    let lt : ltb c s ≡ true = code_increases c i table s text (ground arith) e in ground arith

text_of_entry :
    (n i : ℕ) (table : List (HttpStatus × Bytes)) (s : HttpStatus) (text : Bytes)
    → increases n table ≡ true
    → get_elem? table i ≡ some (s, text)
    → text_of s table ≡ some text
unfolding text_of
text_of_entry n i [] s text h e = ap text_in e
text_of_entry n zero ((c, t) ∷ table) s text h e =
    let e' : c ≡ s = ap code_of e in
    let same : (s == c) ≡ true = ground arith in rw same (ap text_in e)
text_of_entry n (suc i) ((c, t) ∷ table) s text h e =
    let lt : ltb c s ≡ true = code_increases c i table s text (ground arith) e in
    let other : (s == c) ≡ false = ground arith in
    rw other (text_of_entry c i table s text (ground arith) e)

-- Every status of the table has the text of its entry.
pub http_status_to_string_entry :
    (i : ℕ) (s : HttpStatus) (text : Bytes)
    → get_elem? status_map i ≡ some (s, text)
    → http_status_to_string s ≡ text
unfolding http_status_to_string
http_status_to_string_entry i s text e =
    ap text_or_unknown (text_of_entry 0 i status_map s text status_map-increases e)

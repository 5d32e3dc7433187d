-- ===== src/Log/Pattern.antt =====
-- `LogFormatter::init` of src/log.cc: a pattern is cut into texts and formats. The places `i` and `n`
-- of the source are the rests of the pattern from there on.
pub mod Parsing
pub mod Printing
mod Tests
use co_lib.Prelude.{
  ℕ, zero, suc, List, [], ◌∷◌, ◌++◌, Option, some, none, Bool, true, false, not, ◌&&◌, ◌||◌,
  if◌then◌else◌, ◌==◌, leb, length, Bytes, codes, ◌>>=◌,
}

-- An entry of `vec`: a text (0), or the name and the argument of a format (1).
pub data Part : Type 0 where
  text : Bytes → Part
  format : Bytes → Bytes → Part

-- `isalpha` in the C locale
abbrev pub is_alpha : ℕ → Bool
is_alpha c = (leb 65 c && leb c 90) || (leb 97 c && leb c 122)

abbrev pub percent : ℕ
percent = b'%'

-- What the inner loop finds: `str`, `fmt`, the rest from `n` on, and whether `fmt_status` is 0.
pub record Spec : Type 0 where
  pub str : Bytes
  pub fmt : Bytes
  pub rest : Bytes
  pub closed : Bool

-- The inner loop with `fmt_status` 1.
unfoldable pub read_fmt : Bytes → Bytes → Bytes → Spec
read_fmt str fmt [] = record { str = str; fmt = []; rest = []; closed = false }
read_fmt str fmt (c ∷ cs) =
    let more = read_fmt str (fmt ++ (c ∷ [])) cs in
    if c == b'}' then record { str = str; fmt = fmt; rest = cs; closed = true } else more

-- The inner loop with `fmt_status` 0.
unfoldable pub read_str : Bytes → Bytes → Spec
read_str str [] = record { str = str; fmt = []; rest = []; closed = true }
read_str str (c ∷ cs) =
    let more = read_str (str ++ (c ∷ [])) cs in
    if not (is_alpha c) && not (c == b'{') && not (c == b'}')
    then record { str = str; fmt = []; rest = c ∷ cs; closed = true }
    else if c == b'{'
    then read_fmt str [] cs
    else more

-- `nstr`, unless it is empty.
abbrev pub flush : Bytes → List Part
flush [] = []
flush (c ∷ cs) = text (c ∷ cs) ∷ []

abbrev pub starts_with_percent : Bytes → Bool
starts_with_percent [] = false
starts_with_percent (c ∷ cs) = c == percent

-- The parts, and `m_error`.
abbrev pub Cut : Type 0
Cut = List Part × Bool

abbrev pub put_before : List Part → Option Cut → Option Cut
put_before ps none = none
put_before ps (some (qs, error)) = some (ps ++ qs, error)

abbrev pub with_error : Option Cut → Option Cut
with_error none = none
with_error (some (qs, error)) = some (qs, true)

-- The outer loop, with `nstr`; `none` when the fuel runs out.
unfoldable pub cut : ℕ → Bytes → Bytes → Option Cut
cut fuel nstr [] = some (flush nstr, false)
cut zero nstr (c ∷ cs) = none
cut (suc fuel) nstr (c ∷ cs) =
    let spec = read_str [] cs in
    let next = cut fuel (nstr ++ (c ∷ [])) cs in
    let behind = cut fuel [] spec.rest in
    let skipped = cut fuel nstr cs in
    if not (c == percent)
    then next
    else if starts_with_percent cs
    then next
    else if spec.closed
    then put_before (flush nstr ++ (format spec.str spec.fmt ∷ [])) behind
    else with_error (put_before (text (codes "<<pattern_error>>") ∷ []) skipped)

unfoldable pub parse_pattern : Bytes → Option Cut
parse_pattern p = cut (length p) [] p

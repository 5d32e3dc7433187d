-- ===== src/Log/Pattern/Printing.antt =====
-- Lists of parts printed as patterns, which `init` of src/log.cc cuts into the same parts.
use co_lib.Prelude.{
  ℕ, zero, suc, ◌≤◌, ◌≡◌, refl, sym, ◌∙◌, ap, subst, List, [], ◌∷◌, ◌++◌, append-nil, append_assoc,
  some, Bool, true, false, not, ◌&&◌, ◌||◌, ◌==◌, length, Bytes, arith,
}
use co_lib.Log.Pattern.{
  Part, text, format, is_alpha, percent, read_fmt, read_str, flush, starts_with_percent, Cut, cut,
  parse_pattern,
}
use co_lib.Log.Pattern.Parsing.{read_str-shrinks}

abbrev pub print_part : Part → Bytes
print_part (text t) = t
print_part (format str []) = percent ∷ str
print_part (format str (c ∷ fmt)) = percent ∷ (str ++ (b'{' ∷ (c ∷ fmt) ++ (b'}' ∷ [])))

abbrev pub print : List Part → Bytes
print [] = []
print (p ∷ ps) = print_part p ++ print ps

abbrev pub has_byte : ℕ → Bytes → Bool
has_byte b [] = false
has_byte b (c ∷ cs) = c == b || has_byte b cs

abbrev pub all_alpha : Bytes → Bool
all_alpha [] = true
all_alpha (c ∷ cs) = is_alpha c && all_alpha cs

abbrev pub is_name : Bytes → Bool
is_name [] = false
is_name (c ∷ cs) = is_alpha c && all_alpha cs

-- What may stand behind the name of a format without an argument.
abbrev pub stops : Bytes → Bool
stops [] = true
stops (c ∷ cs) = not (is_alpha c) && not (c == b'{') && not (c == b'}')

abbrev pub starts_with_text : List Part → Bool
starts_with_text [] = false
starts_with_text (text t ∷ ps) = true
starts_with_text (format str fmt ∷ ps) = false

abbrev pub is_filled : Bytes → Bool
is_filled [] = false
is_filled (c ∷ cs) = true

-- Texts are not empty, have no `%`, and no two stand side by side; the name of a format has letters
-- only and at least one, its argument has no `}`, and no letter or brace follows a format without
-- an argument.
abbrev pub is_printable : List Part → Bool
is_printable [] = true
is_printable (text t ∷ ps) =
    is_filled t && not (has_byte percent t) && not (starts_with_text ps) && is_printable ps
is_printable (format str [] ∷ ps) = is_name str && stops (print ps) && is_printable ps
is_printable (format str (c ∷ fmt) ∷ ps) =
    is_name str && not (has_byte b'}' (c ∷ fmt)) && is_printable ps

-- The outer loop gives `r`, with any fuel that is enough.
Cuts : Bytes → Bytes → Cut → Type 0
Cuts nstr s r = (fuel : ℕ) → length s ≤ fuel → cut fuel nstr s ≡ some r

Cuts-byte :
    (nstr : Bytes) (c : ℕ) (cs : Bytes) (r : Cut)
    → (c == percent) ≡ false
    → Cuts (nstr ++ (c ∷ [])) cs r
    → Cuts nstr (c ∷ cs) r
unfolding Cuts cut
Cuts-byte nstr c cs r h k zero le = absurd (omega arith)
Cuts-byte nstr c cs r h k (suc fuel) le = rw h (k fuel (omega arith))

Cuts-text :
    (nstr t rest : Bytes) (r : Cut)
    → has_byte percent t ≡ false
    → Cuts (nstr ++ t) rest r
    → Cuts nstr (t ++ rest) r
Cuts-text nstr [] rest r h k = subst (λ n. Cuts n rest r) (append-nil nstr) k
Cuts-text nstr (c ∷ t) rest r h k = Cuts-byte nstr c (t ++ rest) r (ground arith) (
    Cuts-text (nstr ++ (c ∷ [])) t rest r (ground arith)
      (subst (λ n. Cuts n rest r) (sym (append_assoc nstr (c ∷ []) t)) k))

Cuts-format :
    (nstr cs : Bytes) (str fmt rest : Bytes) (ps : List Part)
    → starts_with_percent cs ≡ false
    → read_str [] cs ≡ record { str = str; fmt = fmt; rest = rest; closed = true }
    → Cuts [] rest (ps, false)
    → Cuts nstr (percent ∷ cs) (flush nstr ++ (format str fmt ∷ ps), false)
unfolding Cuts cut
Cuts-format nstr cs str fmt rest ps h e k zero le = absurd (omega arith)
Cuts-format nstr cs str fmt rest ps h e k (suc fuel) le =
    let shorter : length rest ≤ length cs =
      subst (λ s. length s.rest ≤ length cs) e (read_str-shrinks [] cs) in
    let done : cut fuel [] rest ≡ some (ps, false) = k fuel (omega arith) in
    rw (h, e, done)
      (ap (λ qs. some (qs, false)) (append_assoc (flush nstr) (format str fmt ∷ []) ps))

read_fmt-argument :
    (str acc fmt rest : Bytes)
    → has_byte b'}' fmt ≡ false
    → read_fmt str acc (fmt ++ (b'}' ∷ rest))
      ≡ record { str = str; fmt = acc ++ fmt; rest = rest; closed = true }
unfolding read_fmt
read_fmt-argument str acc [] rest h =
    ap (λ f. record { str = str; fmt = f; rest = rest; closed = true }) (sym (append-nil acc))
read_fmt-argument str acc (c ∷ fmt) rest h =
    let other : (c == b'}') ≡ false = ground arith in
    rw other (
      read_fmt-argument str (acc ++ (c ∷ [])) fmt rest (ground arith)
      ∙ ap (λ f. record { str = str; fmt = f; rest = rest; closed = true })
          (append_assoc acc (c ∷ []) fmt))

read_str-name :
    (acc str rest : Bytes)
    → all_alpha str ≡ true
    → read_str acc (str ++ rest) ≡ read_str (acc ++ str) rest
unfolding read_str
read_str-name acc [] rest h = ap (λ a. read_str a rest) (sym (append-nil acc))
read_str-name acc (c ∷ str) rest h =
    let alpha : is_alpha c ≡ true = ground arith in
    let brace : (c == b'{') ≡ false = ground arith in
    rw (alpha, brace)
      (read_str-name (acc ++ (c ∷ [])) str rest (ground arith)
        ∙ ap (λ a. read_str a rest) (append_assoc acc (c ∷ []) str))

read_str-stops :
    (str rest : Bytes)
    → stops rest ≡ true
    → read_str str rest ≡ record { str = str; fmt = []; rest = rest; closed = true }
unfolding read_str
read_str-stops str [] h = refl
read_str-stops str (c ∷ cs) h = rw h refl

read_str-brace : (str cs : Bytes) → read_str str (b'{' ∷ cs) ≡ read_fmt str [] cs
unfolding read_str
read_str-brace str cs = refl

name-no_percent :
    (str rest : Bytes) → is_name str ≡ true → starts_with_percent (str ++ rest) ≡ false
name-no_percent [] rest h = absurd (ground arith)
name-no_percent (c ∷ str) rest h = ground arith

name-alpha : (str : Bytes) → is_name str ≡ true → all_alpha str ≡ true
name-alpha [] h = refl
name-alpha (c ∷ str) h = h

-- A format with an argument is read to its closing brace.
read_str-argument :
    (str fmt rest : Bytes)
    → is_name str ≡ true
    → has_byte b'}' fmt ≡ false
    → read_str [] (str ++ (b'{' ∷ (fmt ++ (b'}' ∷ rest))))
      ≡ record { str = str; fmt = fmt; rest = rest; closed = true }
read_str-argument str fmt rest h k =
    read_str-name [] str _ (name-alpha str h)
    ∙ read_str-brace str (fmt ++ (b'}' ∷ rest))
    ∙ read_fmt-argument str [] fmt rest k

argument_assoc :
    (str fmt rest : Bytes)
    → (str ++ (b'{' ∷ (fmt ++ (b'}' ∷ [])))) ++ rest ≡ str ++ (b'{' ∷ (fmt ++ (b'}' ∷ rest)))
argument_assoc str fmt rest =
    append_assoc str (b'{' ∷ (fmt ++ (b'}' ∷ []))) rest
    ∙ ap (λ x. str ++ (b'{' ∷ x)) (append_assoc fmt (b'}' ∷ []) rest)

flush-filled : (t : Bytes) → is_filled t ≡ true → flush t ≡ text t ∷ []
flush-filled [] h = absurd (ground arith)
flush-filled (c ∷ t) h = refl

Cuts-end : (nstr : Bytes) → Cuts nstr [] (flush nstr ++ [], false)
unfolding Cuts cut
Cuts-end nstr fuel le = ap (λ qs. some (qs, false)) (sym (append-nil (flush nstr)))

Cuts-print :
    (ps : List Part) (nstr : Bytes)
    → is_printable ps ≡ true
    → (is_filled nstr && starts_with_text ps) ≡ false
    → Cuts nstr (print ps) (flush nstr ++ ps, false)
Cuts-print [] nstr h k = Cuts-end nstr
Cuts-print (text t ∷ ps) (c ∷ nstr) h k = absurd (ground arith)
Cuts-print (text t ∷ ps) [] h k =
    let filled : is_filled t ≡ true = ground arith in
    let ih : Cuts t (print ps) (flush t ++ ps, false) =
      Cuts-print ps t (ground arith) (ground arith) in
    Cuts-text [] t (print ps) _ (ground arith)
      (subst (λ q. Cuts t (print ps) (q ++ ps, false)) (flush-filled t filled) ih)
Cuts-print (format str [] ∷ ps) nstr h k =
    let name : is_name str ≡ true = ground arith in
    Cuts-format nstr (str ++ print ps) str [] (print ps) ps (name-no_percent str (print ps) name)
      (read_str-name [] str (print ps) (name-alpha str name)
        ∙ read_str-stops str (print ps) (ground arith))
      (Cuts-print ps [] (ground arith) refl)
Cuts-print (format str (c ∷ fmt) ∷ ps) nstr h k =
    let name : is_name str ≡ true = ground arith in
    let tail : Bytes = b'{' ∷ ((c ∷ fmt) ++ (b'}' ∷ print ps)) in
    subst (λ s. Cuts nstr (percent ∷ s) (flush nstr ++ (format str (c ∷ fmt) ∷ ps), false))
      (sym (argument_assoc str (c ∷ fmt) (print ps)))
      (Cuts-format nstr (str ++ tail) str (c ∷ fmt) (print ps) ps (name-no_percent str tail name)
        (read_str-argument str (c ∷ fmt) (print ps) name (ground arith))
        (Cuts-print ps [] (ground arith) refl))

-- A printable list of parts, printed as a pattern, is cut into the same parts, without an error.
pub parse_pattern-print :
    (ps : List Part) → is_printable ps ≡ true → parse_pattern (print ps) ≡ some (ps, false)
unfolding parse_pattern Cuts
parse_pattern-print ps h = Cuts-print ps [] h refl (length (print ps)) (omega arith)

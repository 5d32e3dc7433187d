-- ===== src/Log/Formatter/Texts.antt =====
-- What a `LogFormatter` of src/log.cc writes for an event.
use co_lib.Prelude.{
  ℕ, List, [], ◌∷◌, ◌++◌, ◌≡◌, refl, ap, Option, some, none, Bool, true, false, not, ◌&&◌, Bytes,
  Bool-cases, Option-cases, inl, inr,
}
use co_lib.Log.{Level, LogEvent}
use co_lib.Log.Pattern.{Part, text, format}
use co_lib.Log.Pattern.Printing.{print, is_printable, parse_pattern-print}
use co_lib.Log.Pattern.Parsing.{parse_pattern-ends}
use co_lib.Log.Formatter.{
  FormatItem, item_of, items_of, find_item, LogFormatter, formatter_of, new_formatter, format_item,
  format_items, format_event, error_format,
}

-- The names of the formats are known.
abbrev pub is_found : Option FormatItem → Bool
is_found none = false
is_found (some i) = true

abbrev pub are_known : List Part → Bool
are_known [] = true
are_known (text t ∷ ps) = are_known ps
are_known (format str fmt ∷ ps) = is_found (find_item str fmt) && are_known ps

-- `m_error` stays set.
items_of-failed : (ps : List Part) → (items_of ps true).1 ≡ true
items_of-failed [] = refl
items_of-failed (p ∷ ps) = elim (Bool-cases (item_of p).1) [
  | inl e ↦ rw e (items_of-failed ps)
  | inr e ↦ rw e (items_of-failed ps)
]

-- `m_error` is set exactly when the name of a format is unknown.
items_of-error : (ps : List Part) → (items_of ps false).1 ≡ not (are_known ps)
items_of-error [] = refl
items_of-error (text t ∷ ps) = items_of-error ps
items_of-error (format str fmt ∷ ps) = elim (Option-cases (find_item str fmt)) [
  | inl e ↦ rw e (items_of-failed ps)
  | inr (i, e) ↦ rw e (items_of-error ps)
]

-- There is a formatter for every pattern.
pub new_formatter-ends : (pattern : Bytes) → (f : LogFormatter) × (new_formatter pattern ≡ some f)
unfolding new_formatter
new_formatter-ends pattern =
    let (r, e) = parse_pattern-ends pattern in (_, ap (formatter_of pattern) e)

module _ (strftime : Bytes → ℕ → Bytes) where
  abbrev pub shown_format : Bytes → Option FormatItem → Level → LogEvent → Bytes
  shown_format str (some i) level event = format_item strftime i level event
  shown_format str none level event = error_format str

  -- What stands in a line of the log for a part.
  abbrev pub shown : Part → Level → LogEvent → Bytes
  shown (text t) level event = t
  shown (format str fmt) level event = shown_format str (find_item str fmt) level event

  abbrev pub shown_all : List Part → Level → LogEvent → Bytes
  shown_all [] level event = []
  shown_all (p ∷ ps) level event = shown p level event ++ shown_all ps level event

  -- Each part is written, whatever `m_error` is.
  items_of-shown :
      (ps : List Part) (failed : Bool) (level : Level) (event : LogEvent)
      → format_items strftime (items_of ps failed).0 level event ≡ shown_all ps level event
  items_of-shown [] failed level event = refl
  items_of-shown (text t ∷ ps) failed level event =
      ap (λ s. t ++ s) (items_of-shown ps failed level event)
  items_of-shown (format str fmt ∷ ps) failed level event =
      elim (Option-cases (find_item str fmt)) [
        | inl e ↦ rw e (ap (λ s. error_format str ++ s) (items_of-shown ps true level event))
        | inr (i, e) ↦ rw e (
            ap (λ s. format_item strftime i level event ++ s)
              (items_of-shown ps failed level event))
      ]

  -- A printable list of parts, printed as a pattern: the formatter of the pattern writes each text as
  -- it is and, for each format, what it stands for in the event, in their order; it reports an error
  -- exactly when it does not know the name of one of the formats.
  pub new_formatter-print :
      (ps : List Part) (level : Level) (event : LogEvent)
      → is_printable ps ≡ true
      → (f : LogFormatter) × (new_formatter (print ps) ≡ some f)
        × (f.is_error ≡ not (are_known ps))
        × (format_event strftime f level event ≡ shown_all ps level event)
  unfolding new_formatter format_event
  new_formatter-print ps level event h =
      let f : LogFormatter = record {
        pattern = print ps;
        items = (items_of ps false).0;
        is_error = (items_of ps false).1;
      } in
      (
        f,
        rw (parse_pattern-print ps h) refl,
        items_of-error ps,
        items_of-shown ps false level event,
      )

-- ===== src/Log/Formatter.antt =====
-- `LogFormatter` of src/log.cc: the format items, the items of a pattern, and the text of an event.
pub mod Texts
mod Tests
use co_lib.Prelude.{
  ℕ, ◌==◌, List, [], ◌∷◌, ◌++◌, Option, some, none, Bool, true, false, if◌then◌else◌, Bytes,
  bytes_eq, codes, decimal, decimal_int,
}
use co_lib.Log.{Level, level_to_string, LogEvent}
use co_lib.Log.Pattern.{Part, text, format, Cut, parse_pattern}

-- The subclasses of `LogFormatter::FormatItem`.
pub data FormatItem : Type 0 where
  message_item level_item elapse_item name_item thread_id_item : FormatItem
  fiber_id_item thread_name_item tab_item filename_item line_item new_line_item : FormatItem
  date_time_item : Bytes → FormatItem
  string_item : Bytes → FormatItem

abbrev pub default_date : Bytes
default_date = codes "%Y-%m-%d %H:%M:%S"

-- `DateTimeFormatItem`
abbrev pub new_date_time_item : Bytes → FormatItem
new_date_time_item [] = date_time_item default_date
new_date_time_item (c ∷ cs) = date_time_item (c ∷ cs)

-- `s_format_items`, by the one letter of its keys.
abbrev pub format_item_of : ℕ → Bytes → Option FormatItem
format_item_of c fmt =
    if c == b'm'
    then some message_item
    else if c == b'p'
    then some level_item
    else if c == b'r'
    then some elapse_item
    else if c == b'c'
    then some name_item
    else if c == b't'
    then some thread_id_item
    else if c == b'n'
    then some new_line_item
    else if c == b'd'
    then some (new_date_time_item fmt)
    else if c == b'f'
    then some filename_item
    else if c == b'l'
    then some line_item
    else if c == b'T'
    then some tab_item
    else if c == b'F'
    then some fiber_id_item
    else if c == b'N'
    then some thread_name_item
    else none

abbrev pub find_item : Bytes → Bytes → Option FormatItem
find_item [] fmt = none
find_item (c ∷ []) fmt = format_item_of c fmt
find_item (c ∷ d ∷ cs) fmt = none

abbrev pub error_format : Bytes → Bytes
error_format str = codes "<<error_format %" ++ str ++ codes ">>"

-- The item of a found or an unknown name, and whether `m_error` is set.
abbrev pub known_item : Bytes → Option FormatItem → FormatItem × Bool
known_item str (some item) = (item, false)
known_item str none = (string_item (error_format str), true)

abbrev pub item_of : Part → FormatItem × Bool
item_of (text t) = (string_item t, false)
item_of (format str fmt) = known_item str (find_item str fmt)

abbrev pub items_of : List Part → Bool → List FormatItem × Bool
items_of [] failed = ([], failed)
items_of (p ∷ ps) failed =
    let (item, fails) = item_of p in
    let (items, failed') = items_of ps (if fails then true else failed) in (item ∷ items, failed')

-- `m_pattern`, `m_items`, `m_error`
pub record LogFormatter : Type 0 where
  pub pattern : Bytes
  pub items : List FormatItem
  pub is_error : Bool

abbrev pub formatter_of : Bytes → Option Cut → Option LogFormatter
formatter_of pattern none = none
formatter_of pattern (some (ps, failed)) = some (record {
  pattern = pattern;
  items = (items_of ps failed).0;
  is_error = (items_of ps failed).1;
})

-- `LogFormatter::LogFormatter` with `init`
unfoldable pub new_formatter : Bytes → Option LogFormatter
new_formatter pattern = formatter_of pattern (parse_pattern pattern)

-- `strftime fmt time` is what `strftime` writes for the local time of `time`, in a buffer of 64 bytes.
module _ (strftime : Bytes → ℕ → Bytes) where
  -- `FormatItem::format`
  abbrev pub format_item : FormatItem → Level → LogEvent → Bytes
  format_item message_item level event = event.content
  format_item level_item level event = level_to_string level
  format_item elapse_item level event = decimal event.elapse
  format_item name_item level event = event.logger_name
  format_item thread_id_item level event = decimal event.thread_id
  format_item fiber_id_item level event = decimal event.fiber_id
  format_item thread_name_item level event = event.thread_name
  format_item tab_item level event = 9 ∷ []
  format_item (date_time_item fmt) level event = strftime fmt event.time
  format_item filename_item level event = event.file
  format_item line_item level event = decimal_int event.line
  format_item new_line_item level event = 10 ∷ []
  format_item (string_item s) level event = s

  abbrev pub format_items : List FormatItem → Level → LogEvent → Bytes
  format_items [] level event = []
  format_items (i ∷ is) level event = format_item i level event ++ format_items is level event

  -- `LogFormatter::format`
  pub format_event : LogFormatter → Level → LogEvent → Bytes
  format_event f level event = format_items f.items level event

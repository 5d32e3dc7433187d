-- ===== src/Log/Formatter/Tests.antt =====
-- Formatters of src/log.cc on concrete patterns and events.
use co_lib.Prelude.{ℕ, ◌≡◌, refl, List, [], ◌∷◌, some, not, codes, Bytes, pos}
use co_lib.Log.{
  Level, unknow, debug, info, warn, error, fatal, level_to_string, level_from_string, LogEvent,
}
use co_lib.Log.Pattern.{Part, text, format}
use co_lib.Log.Pattern.Printing.{print}
use co_lib.Log.Formatter.{LogFormatter, new_formatter, format_event}
use co_lib.Log.Formatter.Texts.{are_known, shown_all, new_formatter-print}

abbrev no_dates : Bytes → ℕ → Bytes
no_dates fmt time = fmt

abbrev event : LogEvent
event = record {
  file = codes "main.cc";
  line = pos 42;
  elapse = 0;
  thread_id = 7;
  fiber_id = 3;
  time = 1000;
  content = codes "hello";
  thread_name = codes "main";
  logger_name = codes "system";
}

-- The last name is unknown.
abbrev parts : List Part
parts =
    text (codes "[")
    ∷ format (codes "p") []
    ∷ text (codes "] ")
    ∷ format (codes "f") []
    ∷ text (codes ":")
    ∷ format (codes "l") []
    ∷ text (codes " ")
    ∷ format (codes "q") []
    ∷ []

new_formatter-print_example :
    (f : LogFormatter) × (new_formatter (print parts) ≡ some f)
    × (f.is_error ≡ not (are_known parts))
    × (format_event no_dates f error event ≡ shown_all no_dates parts error event)
new_formatter-print_example = new_formatter-print no_dates parts error event refl

shown_parts : shown_all no_dates parts error event ≡ codes "[ERROR] main.cc:42 <<error_format %q>>"
shown_parts = refl

level_from_string-level_to_string : (l : Level) → level_from_string (level_to_string l) ≡ l
level_from_string-level_to_string unknow = refl
level_from_string-level_to_string debug = refl
level_from_string-level_to_string info = refl
level_from_string-level_to_string warn = refl
level_from_string-level_to_string error = refl
level_from_string-level_to_string fatal = refl

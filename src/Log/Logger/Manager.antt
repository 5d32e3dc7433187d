-- ===== src/Log/Logger/Manager.antt =====
-- `LoggerManager` of src/log.cc, and any sequence of calls on its loggers and on appenders.
mod Tests
pub mod Sound
pub mod Logs
use co_lib.Prelude.{
  ℕ, suc, List, [], ◌∷◌, ◌++◌, ◌≡◌, Option, some, none, Bool, true, false, if◌then◌else◌, Bytes,
  bytes_eq, codes, length, ◌>>=◌,
}
use co_lib.Log.{Level, debug, LogEvent}
use co_lib.Log.Formatter.{LogFormatter, new_formatter}
use co_lib.Log.Logger.{
  Sink, stdout_sink, new_appender, LoggerData, LogState, Logged, set_appender_formatter,
  add_appender, del_appender, clear_appender, set_formatter, set_pattern, set_level,
  set_appender_level, log,
}

abbrev pub default_pattern : Bytes
default_pattern = codes "%d{%Y-%m-%d %H:%M:%S}%T%t%T%N%T%F%T[%p]%T[%c]%T%f:%l%T%m%n"

-- `Logger::Logger`, with the root that `getLogger` sets
pub new_logger : Bytes → Option ℕ → Option LoggerData
new_logger name root = new_formatter default_pattern >>= λ f.
    some (record { name = name; level = debug; appenders = []; formatter = some f; root = root })

abbrev pub find_name : Bytes → List (Bytes × ℕ) → Option ℕ
find_name name [] = none
find_name name ((k, i) ∷ m) =
    let rest = find_name name m in if bytes_eq k name then some i else rest

-- A new appender of the program.
pub create_appender : Sink → LogState → LogState
create_appender k s = record s { appenders = s.appenders ++ (new_appender k ∷ []) }

-- `LoggerManager::LoggerManager`: the root is the first logger.
pub new_manager : Option LogState
new_manager = new_logger (codes "root") none >>= λ l. add_appender 0 0 (
    create_appender stdout_sink
      (record { appenders = []; loggers = l ∷ []; names = (codes "root", 0) ∷ [] }))

abbrev pub root_index : ℕ
root_index = 0

abbrev pub add_logger : Bytes → LoggerData → LogState → ℕ × LogState
add_logger name l s = (
  length s.loggers,
  record s { loggers = s.loggers ++ (l ∷ []); names = s.names ++ ((name, length s.loggers) ∷ []) },
)

abbrev pub give_logger : Bytes → Option ℕ → LogState → Option (ℕ × LogState)
give_logger name (some i) s = some (i, s)
give_logger name none s = new_logger name (some root_index) >>= λ l. some (add_logger name l s)

-- `LoggerManager::getLogger`
pub get_logger : Bytes → LogState → Option (ℕ × LogState)
get_logger name s = give_logger name (find_name name s.names) s

-- The calls of a program; a formatter that it sets is not a null pointer.
pub data Call : Type 0 where
  gets_logger : Bytes → Call
  creates_appender : Sink → Call
  adds_appender dels_appender : ℕ → ℕ → Call
  clears_appender : ℕ → Call
  sets_formatter sets_appender_formatter : ℕ → LogFormatter → Call
  sets_pattern : ℕ → Bytes → Call
  sets_level sets_appender_level : ℕ → Level → Call
  logs : ℕ → Level → LogEvent → Call

abbrev pub got_state : Option (ℕ × LogState) → Option LogState
got_state none = none
got_state (some (i, s)) = some s

abbrev pub logged_state : Option Logged → Option LogState
logged_state none = none
logged_state (some (s, outs)) = some s

module _ (strftime : Bytes → ℕ → Bytes) where
  pub perform : Call → LogState → Option LogState
  perform (gets_logger name) s = got_state (get_logger name s)
  perform (creates_appender k) s = some (create_appender k s)
  perform (adds_appender i j) s = add_appender i j s
  perform (dels_appender i j) s = del_appender i j s
  perform (clears_appender i) s = clear_appender i s
  perform (sets_formatter i f) s = set_formatter i (some f) s
  perform (sets_appender_formatter j f) s = set_appender_formatter j (some f) s
  perform (sets_pattern i pattern) s = set_pattern i pattern s
  perform (sets_level i level) s = set_level i level s
  perform (sets_appender_level j level) s = set_appender_level j level s
  perform (logs i level event) s = logged_state (log strftime (suc i) i level event s)

  pub data Reach (m : LogState) : LogState → Type 0 where
    start : Reach m m
    then_call : {t u : LogState} (c : Call) → Reach m t → perform c t ≡ some u → Reach m u

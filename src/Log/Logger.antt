-- ===== src/Log/Logger.antt =====
-- `Logger`, its appenders and `LoggerManager` of src/log.cc and include/log.h. Loggers and appenders
-- are shared objects: `LogState` holds them, and an index stands for a pointer to one; an operation
-- gives `none` where the program would use a null pointer. Mutexes are not modelled.
pub mod Manager
pub mod Ready
pub mod Logging
use co_lib.Prelude.{
  ℕ, zero, suc, ◌==◌, leb, List, [], ◌∷◌, ◌++◌, Option, some, none, Bool, true, false,
  if◌then◌else◌, Bytes, bytes_eq, codes, get_elem?, set, length, ◌>>=◌, add_word,
}
use co_lib.Log.{Level, debug, level_number, LogEvent}
use co_lib.Log.Formatter.{LogFormatter, new_formatter, format_event}

-- The subclasses of `LogAppender`; a file has its name and `m_lastTime`.
pub data Sink : Type 0 where
  stdout_sink : Sink
  file_sink : Bytes → ℕ → Sink

-- `LogAppender`
pub record Appender : Type 0 where
  pub sink : Sink
  pub level : Level
  pub formatter : Option LogFormatter
  pub has_formatter : Bool

abbrev pub new_appender : Sink → Appender
new_appender k = record { sink = k; level = debug; formatter = none; has_formatter = false }

-- `Logger`; `root` is `m_root`.
pub record LoggerData : Type 0 where
  pub name : Bytes
  pub level : Level
  pub appenders : List ℕ
  pub formatter : Option LogFormatter
  pub root : Option ℕ

-- All appenders and loggers, and `m_loggers`.
pub record LogState : Type 0 where
  pub appenders : List Appender
  pub loggers : List LoggerData
  pub names : List (Bytes × ℕ)

abbrev pub put_appender : ℕ → Appender → LogState → LogState
put_appender i a s = record s { appenders = set s.appenders i a }

abbrev pub put_logger : ℕ → LoggerData → LogState → LogState
put_logger i l s = record s { loggers = set s.loggers i l }

-- What reaches the appender with this index: it opens its file again, or writes a line.
pub data Output : Type 0 where
  reopened : ℕ → Output
  wrote : ℕ → Bytes → Output

abbrev pub at_least : Level → Level → Bool
at_least level bound = leb (level_number bound) (level_number level)

-- `LogAppender::setFormatter`
abbrev pub with_formatter : Option LogFormatter → Appender → Appender
with_formatter none a = record a { formatter = none; has_formatter = false }
with_formatter (some f) a = record a { formatter = some f; has_formatter = true }

pub set_appender_formatter : ℕ → Option LogFormatter → LogState → Option LogState
set_appender_formatter i f s =
    get_elem? s.appenders i >>= λ a. some (put_appender i (with_formatter f a) s)

-- A formatter of its own, or else the logger's.
abbrev pub lend_formatter : Option LogFormatter → Appender → Appender
lend_formatter f a = elim a.formatter [ some g ↦ a | none ↦ record a { formatter = f } ]

-- `Logger::addAppender`
pub add_appender : ℕ → ℕ → LogState → Option LogState
add_appender i j s = get_elem? s.loggers i >>= λ l. get_elem? s.appenders j >>= λ a. some (
    put_logger i (record l { appenders = l.appenders ++ (j ∷ []) })
      (put_appender j (lend_formatter l.formatter a) s))

abbrev pub erase_first : ℕ → List ℕ → List ℕ
erase_first j [] = []
erase_first j (k ∷ ks) = let rest = erase_first j ks in if k == j then ks else k ∷ rest

-- `Logger::delAppender`
pub del_appender : ℕ → ℕ → LogState → Option LogState
del_appender i j s = get_elem? s.loggers i >>= λ l.
    some (put_logger i (record l { appenders = erase_first j l.appenders }) s)

-- `Logger::clearAppender`
pub clear_appender : ℕ → LogState → Option LogState
clear_appender i s =
    get_elem? s.loggers i >>= λ l. some (put_logger i (record l { appenders = [] }) s)

abbrev pub pass_formatter : Option LogFormatter → Appender → Appender
pass_formatter f a = if a.has_formatter then a else record a { formatter = f }

-- The loop of `Logger::setFormatter` over the appenders.
pub pass_to_all : Option LogFormatter → List ℕ → LogState → Option LogState
pass_to_all f [] s = some s
pass_to_all f (j ∷ js) s =
    get_elem? s.appenders j >>= λ a. pass_to_all f js (put_appender j (pass_formatter f a) s)

-- `Logger::setFormatter` of a formatter
pub set_formatter : ℕ → Option LogFormatter → LogState → Option LogState
set_formatter i f s = get_elem? s.loggers i >>= λ l.
    pass_to_all f l.appenders (put_logger i (record l { formatter = f }) s)

-- `Logger::setFormatter` of a pattern; the message for a pattern with an error is left out.
pub set_pattern : ℕ → Bytes → LogState → Option LogState
set_pattern i pattern s = new_formatter pattern >>= λ f. set_formatter i (some f) s

-- `setLevel` of a logger and of an appender
pub set_level : ℕ → Level → LogState → Option LogState
set_level i level s =
    get_elem? s.loggers i >>= λ l. some (put_logger i (record l { level = level }) s)

pub set_appender_level : ℕ → Level → LogState → Option LogState
set_appender_level j level s =
    get_elem? s.appenders j >>= λ a. some (put_appender j (record a { level = level }) s)

-- `now >= m_lastTime + 3`
abbrev pub is_stale : ℕ → ℕ → Bool
is_stale last now = leb (add_word last 3) now

abbrev pub Logged : Type 0
Logged = LogState × List Output

module _ (strftime : Bytes → ℕ → Bytes) where
  -- `FileLogAppender::log` and `StdoutLogAppender::log`, behind the test of the level
  abbrev pub write_to : ℕ → Appender → Sink → Bytes → LogEvent → LogState → Logged
  write_to j a stdout_sink line event s = (s, wrote j line ∷ [])
  write_to j a (file_sink file last) line event s =
      if is_stale last event.time
      then (
        put_appender j (record a { sink = file_sink file event.time }) s,
        reopened j ∷ wrote j line ∷ [],
      )
      else (s, wrote j line ∷ [])

  abbrev pub appender_log : ℕ → Level → LogEvent → LogState → Option Logged
  appender_log j level event s = get_elem? s.appenders j >>= λ a.
      if at_least level a.level
      then (a.formatter >>= λ f.
          some (write_to j a a.sink (format_event strftime f level event) event s))
      else some (s, [])

  -- The loop of `Logger::log` over the appenders.
  pub log_to_all : List ℕ → Level → LogEvent → LogState → Option Logged
  log_to_all [] level event s = some (s, [])
  log_to_all (j ∷ js) level event s = appender_log j level event s >>= λ r1.
      log_to_all js level event r1.0 >>= λ r2. some (r2.0, r1.1 ++ r2.1)

  -- `Logger::log`; the fuel bounds the chain of roots.
  pub log : ℕ → ℕ → Level → LogEvent → LogState → Option Logged
  log zero i level event s = none
  log (suc fuel) i level event s = get_elem? s.loggers i >>= λ l.
      if at_least level l.level
      then elim l.appenders [
        | [] ↦ elim l.root [ none ↦ some (s, []) | some r ↦ log fuel r level event s ]
        | j ∷ js ↦ log_to_all (j ∷ js) level event s
      ]
      else some (s, [])

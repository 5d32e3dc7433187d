-- ===== src/Log.antt =====
-- src/log.cc and include/log.h: levels, events, the patterns of a LogFormatter, and loggers.
pub mod Pattern
pub mod Formatter
pub mod Logger
use co_lib.Prelude.{ℕ, [], ◌∷◌, if◌then◌else◌, Bytes, bytes_eq, codes, ℤ}

-- `LogLevel::Level`
pub data Level : Type 0 where
  unknow debug info warn error fatal : Level

abbrev pub level_number : Level → ℕ
level_number unknow = 0
level_number debug = 1
level_number info = 2
level_number warn = 3
level_number error = 4
level_number fatal = 5

abbrev pub level_to_string : Level → Bytes
level_to_string debug = codes "DEBUG"
level_to_string info = codes "INFO"
level_to_string warn = codes "WARN"
level_to_string error = codes "ERROR"
level_to_string fatal = codes "FATAL"
level_to_string unknow = codes "UNKNOW"

abbrev pub level_from_string : Bytes → Level
level_from_string str =
    if bytes_eq str (codes "DEBUG")
    then debug
    else if bytes_eq str (codes "INFO")
    then info
    else if bytes_eq str (codes "WARN")
    then warn
    else if bytes_eq str (codes "ERROR")
    then error
    else if bytes_eq str (codes "FATAL")
    then fatal
    else unknow

-- What the format items read of a `LogEvent`; `logger_name` is the name of its logger.
pub record LogEvent : Type 0 where
  pub file : Bytes
  pub line : ℤ
  pub elapse : ℕ
  pub thread_id : ℕ
  pub fiber_id : ℕ
  pub time : ℕ
  pub content : Bytes
  pub thread_name : Bytes
  pub logger_name : Bytes

-- ===== src/Log/Logger/Manager/Tests.antt =====
-- A program that gets loggers from the manager of src/log.cc and logs.
use co_lib.Prelude.{ℕ, suc, ◌≡◌, refl, [], Option, some, none, codes, Bytes, pos}
use co_lib.Log.{warn, LogEvent}
use co_lib.Log.Pattern.{parse_pattern, cut, read_str, read_fmt}
use co_lib.Log.Formatter.{new_formatter}
use co_lib.Log.Logger.{LogState, Logged, add_appender, log}
use co_lib.Log.Logger.Manager.{
  create_appender, new_logger, new_manager, get_logger, gets_logger, perform, start, then_call,
}
use co_lib.Log.Logger.Manager.Logs.{Reach-Logs}

abbrev no_dates : Bytes → ℕ → Bytes
no_dates fmt time = codes "now"

abbrev event : LogEvent
event = record {
  file = codes "main.cc";
  line = pos 42;
  elapse = 0;
  thread_id = 7;
  fiber_id = 3;
  time = 1000;
  content = codes "hello";
  thread_name = codes "main";
  logger_name = codes "system";
}

abbrev state_or_empty : Option LogState → LogState
state_or_empty (some s) = s
state_or_empty none = record { appenders = []; loggers = []; names = [] }

abbrev first_state : LogState
first_state = state_or_empty new_manager

abbrev second_state : LogState
second_state = state_or_empty (perform no_dates (gets_logger (codes "system")) first_state)

first_state_lem : new_manager ≡ some first_state
unfolding new_manager new_logger new_formatter parse_pattern cut read_str read_fmt create_appender
    add_appender
first_state_lem = refl

second_state_lem : perform no_dates (gets_logger (codes "system")) first_state ≡ some second_state
unfolding perform get_logger new_manager new_logger new_formatter parse_pattern cut read_str
    read_fmt create_appender add_appender
second_state_lem = refl

Reach-Logs_example :
    (r : ℕ × LogState) × (get_logger (codes "http") second_state ≡ some r)
    × (o : Logged) × (log no_dates (suc r.0) r.0 warn event r.1 ≡ some o)
Reach-Logs_example =
    Reach-Logs no_dates first_state second_state (codes "http") warn event first_state_lem
      (then_call (gets_logger (codes "system")) start second_state_lem)

-- ===== src/Logging/AsyncFileLogger.antt =====
-- src/logging/AsyncFileLogger.h and AsyncFileLogger.cpp, Logger.h and NullLogger.h: what a thread
-- that logs does, and what the worker writes for a record. The worker's loop, its clock and the file
-- are left out; a time stamp is given as its text.
pub mod Queueing
mod Examples
use sixchange.Base.{
  ℕ, zero, suc, ◌+◌, ◌-◌, ◌==◌, ◌&&◌, Bool, true, false, not, Option, none, some, List, [], ◌∷◌,
  ◌++◌, Bytes, codes, take, drop, find_if, to_string, length, add64, if◌then◌else◌, Run, ok, ◌>>=◌,
}
use sixchange.Logging.SpscRing.{SpscRing, try_push}
use sixchange.Logging.LogRecord.{LogLevel, LogArgument, LogRecord, Loggable, capture_arguments}
use sixchange.Logging.Format.{should_log, level_name, write_formatted_message}

pub record AsyncFileLogger (D : Type 0) : Type 0 where
  pub queue : SpscRing (LogRecord D)
  pub dropped_records : ℕ
  pub minimum_level : LogLevel

-- `QueueCapacity` is 2 ^ 14.
abbrev pub queue_bits : ℕ
queue_bits = 14

module _ {D : Type 0} where
  unfoldable pub enqueue_record : AsyncFileLogger D → LogRecord D → AsyncFileLogger D × Bool
  enqueue_record logger r =
      let (queue, pushed) = try_push queue_bits logger.queue r in
      if pushed then (record logger { queue = queue }, true) else (
        record logger { queue = queue; dropped_records = add64 logger.dropped_records 1 },
        false,
      )

  -- `Logger::enqueue`
  unfoldable pub enqueue :
      AsyncFileLogger D
      → LogLevel
      → (function_name format : Bytes) → List (Loggable D)
      → AsyncFileLogger D × Bool
  unfolding enqueue_record
  enqueue logger level function_name format arguments =
      if not (should_log logger.minimum_level level)
      then (logger, true)
      else enqueue_record logger (record {
        level = level;
        function_name = function_name;
        format = format;
        arguments = capture_arguments arguments;
      })

-- The text begins with the needle.
abbrev begins : (needle s : Bytes) → Bool
begins [] s = true
begins (c ∷ needle) [] = false
begins (c ∷ needle) (d ∷ s) = d == c && begins needle s

abbrev last_of : Option ℕ → Bool → Option ℕ
last_of (some i) here = some (suc i)
last_of none true = some 0
last_of none false = none

-- std::string_view's `rfind` of a needle that is not empty: its last place at most at `limit`.
unfoldable pub rfind : (needle : Bytes) → (limit : ℕ) → Bytes → Option ℕ
rfind needle limit [] = none
rfind needle zero (c ∷ s) = last_of none (begins needle (c ∷ s))
rfind needle (suc limit) (c ∷ s) = last_of (rfind needle limit s) (begins needle (c ∷ s))

unfoldable pub before_parameters : Bytes → Option ℕ → Bytes
before_parameters name none = name
before_parameters name (some parameters) = take parameters name

unfoldable pub after_space : Bytes → Option ℕ → Bytes
after_space name none = name
after_space name (some final_space) = drop (final_space + 1) name

unfoldable pub after_separator : Bytes → Option ℕ → Bytes
after_separator name none = name
after_separator name (some previous_separator) = drop (previous_separator + 2) name

unfoldable pub last_two_parts : Bytes → Option ℕ → Bytes
unfolding after_separator rfind
last_two_parts name none = name
last_two_parts name (some zero) = name
last_two_parts name (some (suc final)) = after_separator name (rfind (codes "::") final name)

unfoldable pub short_function_name : Bytes → Bytes
unfolding before_parameters after_space last_two_parts
short_function_name full_name =
    let name = before_parameters full_name (find_if (λ c. c == b'(') full_name) in
    let name = after_space name (rfind (codes " ") (length name) name) in
    last_two_parts name (rfind (codes "::") (length name) name)

module _ {D : Type 0} (float_text : D → Bytes) (timestamp : Bytes) where
  -- The line of a record.
  unfoldable pub write_record : LogRecord D → Run Bytes
  unfolding short_function_name
  write_record r = write_formatted_message float_text r.format r.arguments >>= λ message. ok (
      timestamp
      ++ (b' ' ∷ level_name r.level
          ++ (b' ' ∷ short_function_name r.function_name ++ (b' ' ∷ message ++ b'\n' ∷ []))))

-- The line about records that did not fit into the queue.
unfoldable pub write_dropped_records : (timestamp : Bytes) → ℕ → Bytes
write_dropped_records timestamp count =
    timestamp
    ++ (codes " WARNING AsyncFileLogger::run Dropped log records count="
        ++ (to_string count ++ b'\n' ∷ []))

-- ===== src/Logging/AsyncFileLogger/Examples.antt =====
-- Records and names.
use sixchange.Base.{find_if, ℕ, ◌≡◌, refl, [], codes}
use sixchange.Logging.SpscRing.{System, start, at_start}
use sixchange.Logging.LogRecord.{LogLevel, LogRecord}
use sixchange.Logging.AsyncFileLogger.{AsyncFileLogger, enqueue_record, short_function_name, rfind}
use sixchange.Logging.AsyncFileLogger.Queueing.{over, SentOrDropped, enqueue_record-SentOrDropped}

abbrev entry : LogRecord ℕ
entry = record {
  level = LogLevel.warning;
  function_name = codes "main";
  format = codes "x";
  arguments = [];
}

abbrev idle : System (LogRecord ℕ)
idle = start (λ i. entry)

abbrev logger : AsyncFileLogger ℕ
logger = record { queue = idle.ring; dropped_records = 3; minimum_level = LogLevel.info }

enqueue_record-SentOrDropped_example :
    SentOrDropped (λ i. entry) logger idle entry (enqueue_record (over logger idle) entry)
enqueue_record-SentOrDropped_example = enqueue_record-SentOrDropped logger entry at_start refl

shortens_name :
    short_function_name (codes "void sixchange::OrderGateway::handle(int)")
    ≡ codes "OrderGateway::handle"
unfolding short_function_name rfind find_if
shortens_name = refl

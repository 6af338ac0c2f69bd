-- ===== src/Logging/AsyncFileLogger/Queueing.antt =====
-- What becomes of a record that a thread logs.
use sixchange.Base.{
  ℕ, ◌≡◌, ◌⊎◌, inl, inr, refl, Bool, true, false, Bool-cases, [], ◌∷◌, ◌++◌, add64,
}
use sixchange.Logging.SpscRing.{System, Reach, ready, is_full, try_push}
use sixchange.Logging.SpscRing.Calls.{try_push-Reach}
use sixchange.Logging.LogRecord.{LogRecord}
use sixchange.Logging.AsyncFileLogger.{AsyncFileLogger, enqueue_record, queue_bits}

-- The logger in front of the ring that a system of the two threads has.
abbrev pub over : {D : Type 0} → AsyncFileLogger D → System (LogRecord D) → AsyncFileLogger D
over logger s = record logger { queue = s.ring }

-- A record is sent to the worker, behind those sent before, or counted as dropped, in the order of
-- the calls, wherever the worker is.
abbrev pub SentOrDropped :
    {D : Type 0}
    → (ℕ → LogRecord D)
    → AsyncFileLogger D
    → System (LogRecord D)
    → LogRecord D
    → AsyncFileLogger D × Bool
    → Type 0
SentOrDropped storage logger s r (after, accepted) =
    ((accepted ≡ true)
      × (after.dropped_records ≡ logger.dropped_records)
      × Reach queue_bits storage (record s { ring = after.queue; sent = s.sent ++ r ∷ [] }))
    ⊎ ((accepted ≡ false)
        × (after.dropped_records ≡ add64 logger.dropped_records 1)
        × (after.queue ≡ s.ring))

-- A thread's record is accepted, and then it is sent to the worker behind the records sent before;
-- or it is refused, and then it is counted as dropped and the queue stays as it was. The state of
-- the ring can be any that the two threads get to with the producer between two calls.
pub enqueue_record-SentOrDropped :
    {D : Type 0} {storage : ℕ → LogRecord D} (logger : AsyncFileLogger D) {s : System (LogRecord D)}
    (r : LogRecord D)
    → Reach queue_bits storage s
    → s.producer ≡ ready
    → SentOrDropped storage logger s r (enqueue_record (over logger s) r)
unfolding enqueue_record try_push
enqueue_record-SentOrDropped logger {s} r reach between =
    elim (Bool-cases (is_full queue_bits s.ring.head s.ring.tail)) [
      | inl full ↦ rw full (inr (refl, refl, refl))
      | inr free ↦
          rw free (inl (refl, refl, rw free at (try_push-Reach queue_bits r reach between)))
    ]

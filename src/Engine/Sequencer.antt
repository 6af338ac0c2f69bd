-- ===== src/Engine/Sequencer.antt =====
-- src/engine/Sequencer.h and Sequencer.cpp: the process-wide source of sequence numbers, as a value
-- that its users pass on. It starts at 1 and wraps.
use sixchange.Base.{add64}
use sixchange.Core.Types.{SequenceNumber}

pub record Sequencer : Type 0 where
  pub next_sequence : SequenceNumber

abbrev pub instance_at_start : Sequencer
instance_at_start = record { next_sequence = 1 }

unfoldable pub next : Sequencer → SequenceNumber × Sequencer
next s = (s.next_sequence, record s { next_sequence = add64 s.next_sequence 1 })

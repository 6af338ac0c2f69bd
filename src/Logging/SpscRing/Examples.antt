-- ===== src/Logging/SpscRing/Examples.antt =====
-- A ring of two slots, with one value on its way.
use sixchange.Base.{ℕ, ◌≡◌, ◌≢◌, ◌≤◌, refl, arith, [], ◌∷◌, List, length, ◌==◌, ltb, first, none}
use sixchange.Logging.SpscRing.{
  System, Reach, at_start, later, start, store, slot, is_full, capacity, try_push, try_pop,
  knows_head, knows_tail, has_room, has_value, begin_push, load_head, find_room, begin_pop,
  load_tail, find_value,
}
use sixchange.Logging.SpscRing.Safety.{
  OnTheirWay, Reach-OnTheirWay, Reach-slot, Reach-is_full, Reach-empty,
}
use sixchange.Logging.SpscRing.Calls.{
  pushed, popped, try_push-Reach, ProducerSteps, ConsumerSteps, try_push-Steps, try_pop-Steps,
}

abbrev blank : ℕ → ℕ
blank i = 0

-- The producer has sent 7.
abbrev one_sent : System ℕ
one_sent = pushed 1 (start blank) 7

one_sent-Reach : Reach 1 blank one_sent
one_sent-Reach = try_push-Reach 1 7 at_start refl

one_sent-received : (popped 1 one_sent).received ≡ 7 ∷ []
unfolding try_push try_pop store slot is_full
one_sent-received = refl

try_push-Steps_example :
    (pending : List ℕ) × OnTheirWay one_sent pending
    × ((try_push 1 one_sent.ring 8).1 ≡ ltb (length pending) (capacity 1))
    × ProducerSteps 1 one_sent (record one_sent { producer = knows_head 8 one_sent.ring.head })
    × ProducerSteps 1
        (record one_sent { producer = knows_head 8 one_sent.ring.head })
        (pushed 1 one_sent 8)
try_push-Steps_example = try_push-Steps 1 8 (omega arith) (omega arith) one_sent-Reach refl

try_pop-Steps_example :
    (pending : List ℕ) × OnTheirWay one_sent pending
    × ((try_pop 1 one_sent.ring).1 ≡ first pending none)
    × ConsumerSteps 1 one_sent (record one_sent { consumer = knows_tail one_sent.ring.tail })
    × ConsumerSteps 1
        (record one_sent { consumer = knows_tail one_sent.ring.tail })
        (popped 1 one_sent)
try_pop-Steps_example = try_pop-Steps 1 (omega arith) (omega arith) one_sent-Reach refl

Reach-OnTheirWay_example :
    (pending : List ℕ) × OnTheirWay one_sent pending × (length pending ≤ capacity 1)
Reach-OnTheirWay_example = Reach-OnTheirWay 1 (omega arith) (omega arith) one_sent-Reach

-- Both threads are about to use the storage: the producer for 8, the consumer for 7.
abbrev both_busy : System ℕ
both_busy = record one_sent { producer = has_room 8 1; consumer = has_value 0 }

asked : Reach 1 blank (record one_sent { producer = knows_head 8 1; consumer = knows_tail 0 })
unfolding try_push is_full
asked =
    later
      (later (later (later one_sent-Reach (begin_push 8 refl)) (load_head refl)) (begin_pop refl))
      (load_tail refl)

both_busy-Reach : Reach 1 blank both_busy
unfolding try_push is_full
both_busy-Reach = later (later asked (find_room refl refl)) (find_value refl refl)

Reach-slot_example : slot 1 1 ≢ slot 1 0
Reach-slot_example = Reach-slot 1 (omega arith) (omega arith) both_busy-Reach refl refl

Reach-is_full_example :
    (pending : List ℕ) × OnTheirWay one_sent pending
    × (is_full 1 1 one_sent.ring.tail ≡ (length pending == capacity 1))
Reach-is_full_example = Reach-is_full 1 (omega arith) (omega arith) asked refl

Reach-empty_example :
    (pending : List ℕ) × OnTheirWay one_sent pending
    × ((0 == one_sent.ring.head) ≡ (length pending == 0))
Reach-empty_example = Reach-empty 1 (omega arith) (omega arith) asked refl

-- ===== src/Logging/SpscRing/Steps.antt =====
-- Every step keeps the ring a queue.
use sixchange.Base.{ℕ, ◌^◌, ◌≤◌, ◌<◌, refl, List, [], ◌∷◌, ◌++◌, arith}
use sixchange.Logging.SpscRing.{
  System, ready, pushing, knows_head, has_room, waiting, popping, knows_tail, has_value, took,
  capacity, start, Step, begin_push, load_head, find_full, find_room, write_slot, publish,
  begin_pop, load_tail, find_empty, find_value, read_slot, release, Reach, at_start, later,
}
use sixchange.Logging.SpscRing.Queue.{IsQueue}
use sixchange.Logging.SpscRing.Moves.{
  produced, produce, consumed, consume, room, arrived, wrote_slot, published, read_it, received_one,
}

module _ {T : Type 0} (k : ℕ) (word : capacity k < 2 ^ 64) (in_word : k ≤ 64) where
  abbrev pub Queued : System T → Type 0
  Queued s = (pending : List T) × IsQueue k s pending

  pub Step-Queued : {s s' : System T} → Step k s s' → Queued s → Queued s'
  Step-Queued (begin_push v e) (p, inv) = (p, produce k word in_word inv (pushing v) tt)
  Step-Queued (load_head {v} e) (p, inv) = (p, produce k word in_word inv (knows_head v _) inv.head)
  Step-Queued (find_full e full) (p, inv) = (p, produce k word in_word inv ready tt)
  Step-Queued (find_room {v} {head = h} e free) (p, inv) = (
    p,
    produce k word in_word inv (has_room v h)
        (produced k word in_word inv e, room k word in_word inv e free),
  )
  Step-Queued (write_slot e) (p, inv) = (p, wrote_slot k word in_word inv e)
  Step-Queued (publish {v} e) (p, inv) = (p ++ v ∷ [], published k word in_word inv e)
  Step-Queued (begin_pop e) (p, inv) = (p, consume k word in_word inv popping tt)
  Step-Queued (load_tail e) (p, inv) = (p, consume k word in_word inv (knows_tail _) inv.tail)
  Step-Queued (find_empty e none) (p, inv) = (p, consume k word in_word inv waiting tt)
  Step-Queued (find_value {tail = t} e more) (p, inv) = (
    p,
    consume k word in_word inv (has_value t)
        (consumed k word in_word inv e, arrived k word in_word inv e more),
  )
  Step-Queued (read_slot {tail = t} e) (p, inv) =
      (p, consume k word in_word inv (took t _) (read_it k word in_word inv e))
  Step-Queued (release e) (p, inv) = received_one k word in_word p inv e

  start-Queued : (storage : ℕ → T) → Queued (start storage)
  start-Queued storage = (
    [],
    record {
      sent = refl;
      few = omega arith;
      head = refl;
      tail = refl;
      stored = tt;
      producing = tt;
      consuming = tt;
    },
  )

  pub Reach-Queued : {storage : ℕ → T} {s : System T} → Reach k storage s → Queued s
  Reach-Queued at_start = start-Queued _
  Reach-Queued (later r step) = Step-Queued step (Reach-Queued r)

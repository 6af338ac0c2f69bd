-- ===== src/Logging/SpscRing/Safety.antt =====
-- What holds in every state that the two threads can get to.
use mathlib.Core.Path.{ap₂}
use sixchange.Base.{
  ℕ, ◌+◌, ◌%◌, ◌^◌, ◌≤◌, ◌<◌, ◌≡◌, ◌≢◌, sym, ap, ◌∙◌, List, ◌++◌, arith, length, leb, ◌==◌, sub64,
  mod-ne,
}
use sixchange.Logging.SpscRing.{
  System, knows_head, has_room, knows_tail, has_value, slot, capacity, is_full, Reach,
}
use sixchange.Logging.SpscRing.Queue.{slot-mod}
use sixchange.Logging.SpscRing.Steps.{Reach-Queued}
use sixchange.Logging.SpscRing.Moves.{produced, consumed}

leb-== : (a b : ℕ) → b ≤ a → leb a b ≡ (b == a)
leb-== a b le = ground arith

==-wrapped : (m n : ℕ) → n < 2 ^ 64 → (m % 2 ^ 64 == (m + n) % 2 ^ 64) ≡ (n == 0)
==-wrapped m n small = ground arith

-- The values on their way: sent, and not received yet.
abbrev pub OnTheirWay : {T : Type 0} → System T → List T → Type 0
OnTheirWay s pending = s.sent ≡ s.received ++ pending

-- However the steps of the two threads interleave, what the consumer has received is what the
-- producer has sent, in order and without loss or repetition, but for the values on their way, of
-- which there are at most the capacity. The capacity is `2 ^ k` and a word.
pub Reach-OnTheirWay :
    {T : Type 0} (k : ℕ) {storage : ℕ → T} {s : System T}
    → capacity k < 2 ^ 64
    → k ≤ 64
    → Reach k storage s
    → (pending : List T) × OnTheirWay s pending × (length pending ≤ capacity k)
Reach-OnTheirWay k word in_word r =
    let (pending, inv) = Reach-Queued k word in_word r in (pending, inv.sent, inv.few)

-- The producer never writes the slot that the consumer reads meanwhile: there is no data race on the
-- storage, whose elements are no atomics.
pub Reach-slot :
    {T : Type 0} (k : ℕ) {storage : ℕ → T} {s : System T} {v : T} {head tail : ℕ}
    → capacity k < 2 ^ 64
    → k ≤ 64
    → Reach k storage s
    → s.producer ≡ has_room v head
    → s.consumer ≡ has_value tail
    → slot k head ≢ slot k tail
Reach-slot k {s = s} word in_word r writing reading same =
    let (pending, inv) = Reach-Queued k word in_word r in
    let w = produced k word in_word inv writing in
    let d = consumed k word in_word inv reading in
    let m = length s.received in
    mod-ne m (length pending) (capacity k) d.1 w.1 (
      sym (ap (slot k) w.0 ∙ slot-mod k (m + length pending) in_word)
      ∙ same
      ∙ ap (slot k) d.0
      ∙ slot-mod k m in_word)

-- The producer finds the ring full exactly when as many values are on their way as its capacity at
-- the moment of its load, however the head and tail counters have wrapped.
pub Reach-is_full :
    {T : Type 0} (k : ℕ) {storage : ℕ → T} {s : System T} {v : T} {head : ℕ}
    → capacity k < 2 ^ 64
    → k ≤ 64
    → Reach k storage s
    → s.producer ≡ knows_head v head
    → (pending : List T) × OnTheirWay s pending
      × (is_full k head s.ring.tail ≡ (length pending == capacity k))
unfolding is_full
Reach-is_full k {s = s} {head = head} word in_word r e =
    let (pending, inv) = Reach-Queued k word in_word r in
    let said = produced k word in_word inv e in
    let gap : sub64 head s.ring.tail ≡ length pending =
      omega (arith, said, inv.tail, inv.few, word) in
    (pending, inv.sent, ap (leb (capacity k)) gap ∙ leb-== (capacity k) (length pending) inv.few)

-- The consumer finds the ring empty exactly when no value is on its way at the moment of its load.
pub Reach-empty :
    {T : Type 0} (k : ℕ) {storage : ℕ → T} {s : System T} {tail : ℕ}
    → capacity k < 2 ^ 64
    → k ≤ 64
    → Reach k storage s
    → s.consumer ≡ knows_tail tail
    → (pending : List T) × OnTheirWay s pending × ((tail == s.ring.head) ≡ (length pending == 0))
Reach-empty k {s = s} {tail = tail} word in_word r e =
    let (pending, inv) = Reach-Queued k word in_word r in
    let said = consumed k word in_word inv e in
    (
      pending,
      inv.sent,
      ap₂ ◌==◌ said inv.head
          ∙ ==-wrapped (length s.received) (length pending) (omega (arith, inv.few, word)),
    )

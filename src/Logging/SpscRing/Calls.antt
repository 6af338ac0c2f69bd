-- ===== src/Logging/SpscRing/Calls.antt =====
-- A call that nothing interrupts is a run of steps.
use sixchange.Base.{
  add64, sub64, ℕ, ◌≡◌, ◌≢◌, ◌≤◌, ◌<◌, ◌^◌, refl, sym, ap, ◌∙◌, subst, List, [], ◌∷◌, ◌++◌, inl,
  inr, Bool-cases, if◌then◌else◌, Option, some, none, ◌==◌, ltb, leb, leb→le, not_leb→lt, lt→ltb,
  le→not_ltb, ==-refl, ne→not_==, length, first, arith,
}
use sixchange.Logging.SpscRing.{
  slot, store, System, ready, knows_head, waiting, knows_tail, has_value, try_push, try_pop,
  is_full, capacity, Step, begin_push, load_head, find_full, find_room, write_slot, publish,
  begin_pop, load_tail, find_empty, find_value, read_slot, release, Reach, later,
}
use sixchange.Logging.SpscRing.Queue.{IsQueue}
use sixchange.Logging.SpscRing.Steps.{Reach-Queued}
use sixchange.Logging.SpscRing.Moves.{consume, read_it}
use sixchange.Logging.SpscRing.Safety.{OnTheirWay}

-- The state after a call of `try_push` by itself, and after one of `try_pop`.
abbrev pub pushed : {T : Type 0} (k : ℕ) → System T → T → System T
pushed k s v = record s {
  ring = (try_push k s.ring v).0;
  sent = if (try_push k s.ring v).1 then s.sent ++ v ∷ [] else s.sent;
}

abbrev with_value : {T : Type 0} → Option T → List T → List T
with_value none vs = vs
with_value (some v) vs = vs ++ v ∷ []

abbrev pub popped : {T : Type 0} (k : ℕ) → System T → System T
popped k s = record s {
  ring = (try_pop k s.ring).0;
  received = with_value (try_pop k s.ring).1 s.received;
}

module _ {T : Type 0} (k : ℕ) where
  -- Steps from a state in which one thread does nothing: `idle` is that thread's part of a state.
  pub data Steps {A : Type 0} (idle : System T → A) (s : System T) : System T → Type 0 where
    none_yet : Steps idle s s
    and_then :
        {s' s'' : System T}
        → Steps idle s s'
        → Step k s' s''
        → idle s'' ≡ idle s'
        → Steps idle s s''

  pub Reach-Steps :
      {A : Type 0} {idle : System T → A} {storage : ℕ → T} {s s' : System T}
      → Reach k storage s
      → Steps idle s s'
      → Reach k storage s'
  Reach-Steps r none_yet = r
  Reach-Steps r (and_then steps step same) = later (Reach-Steps r steps) step

  abbrev pub ProducerSteps : (s s' : System T) → Type 0
  ProducerSteps = Steps (λ s. s.consumer)

  abbrev pub ConsumerSteps : (s s' : System T) → Type 0
  ConsumerSteps = Steps (λ s. s.producer)

  -- The producer gets from its call to its look at the tail, and from there to the call's end.
  pub push_begun :
      (s : System T) (v : T)
      → s.producer ≡ ready
      → ProducerSteps s (record s { producer = knows_head v s.ring.head })
  push_begun s v e = and_then (and_then none_yet (begin_push v e) refl) (load_head refl) refl

  pub push_ended :
      (s : System T) (v : T)
      → s.producer ≡ ready
      → ProducerSteps (record s { producer = knows_head v s.ring.head }) (pushed k s v)
  unfolding try_push
  push_ended s v e = elim (Bool-cases (is_full k s.ring.head s.ring.tail)) [
    | inl full ↦ rw full (
        subst
          (λ p.
            ProducerSteps (record s { producer = knows_head v s.ring.head })
              (record s { producer = p }))
          (sym e) (and_then none_yet (find_full refl full) refl))
    | inr free ↦ rw free (
        subst
          (λ p.
            ProducerSteps (record s { producer = knows_head v s.ring.head })
              (record s {
                ring = record (s.ring) {
                  storage = store s.ring.storage (slot k s.ring.head) v;
                  head = add64 s.ring.head 1;
                };
                sent = s.sent ++ v ∷ [];
                producer = p;
              }))
          (sym e)
          (and_then (and_then (and_then none_yet (find_room refl free) refl) (write_slot refl) refl)
            (publish refl) refl))
  ]

  -- The consumer, alike, with its look at the head.
  pub pop_begun :
      (s : System T)
      → s.consumer ≡ waiting
      → ConsumerSteps s (record s { consumer = knows_tail s.ring.tail })
  pop_begun s e = and_then (and_then none_yet (begin_pop e) refl) (load_tail refl) refl

  pub pop_ended :
      (s : System T)
      → s.consumer ≡ waiting
      → ConsumerSteps (record s { consumer = knows_tail s.ring.tail }) (popped k s)
  unfolding try_pop
  pop_ended s e = elim (Bool-cases (s.ring.tail == s.ring.head)) [
    | inl none_left ↦ rw none_left (
        subst
          (λ c.
            ConsumerSteps (record s { consumer = knows_tail s.ring.tail })
              (record s { consumer = c }))
          (sym e) (and_then none_yet (find_empty refl none_left) refl))
    | inr more ↦ rw more (
        subst
          (λ c.
            ConsumerSteps (record s { consumer = knows_tail s.ring.tail })
              (record s {
                ring = record (s.ring) { tail = add64 s.ring.tail 1 };
                received = s.received ++ s.ring.storage (slot k s.ring.tail) ∷ [];
                consumer = c;
              }))
          (sym e)
          (and_then (and_then (and_then none_yet (find_value refl more) refl) (read_slot refl) refl)
            (release refl) refl))
  ]

  pub try_push-Reach :
      {storage : ℕ → T} {s : System T} (v : T)
      → Reach k storage s
      → s.producer ≡ ready
      → Reach k storage (pushed k s v)
  try_push-Reach {s = s} v r e = Reach-Steps (Reach-Steps r (push_begun s v e)) (push_ended s v e)

  module _ (word : capacity k < 2 ^ 64) (in_word : k ≤ 64) where
    accepts :
        {s : System T} {pending : List T}
        → IsQueue k s pending
        → (v : T) → (try_push k s.ring v).1 ≡ ltb (length pending) (capacity k)
    unfolding try_push is_full
    accepts {s} {pending} inv v =
        let gap : sub64 s.ring.head s.ring.tail ≡ length pending =
          omega (arith, inv.head, inv.tail, inv.few, word) in
        elim (Bool-cases (leb (capacity k) (sub64 s.ring.head s.ring.tail))) [
          | inl full ↦
              let le = leb→le (capacity k) (sub64 s.ring.head s.ring.tail) full in
              rw full (sym (le→not_ltb (length pending) (capacity k) (omega (arith, gap, le))))
          | inr free ↦
              let lt = not_leb→lt (capacity k) (sub64 s.ring.head s.ring.tail) free in
              rw free (sym (lt→ltb (length pending) (capacity k) (omega (arith, gap, lt))))
        ]

    takes :
        {s : System T} (pending : List T)
        → IsQueue k s pending
        → (try_pop k s.ring).1 ≡ first pending none
    unfolding try_pop
    takes {s} [] inv =
        let same : s.ring.tail ≡ s.ring.head = omega (arith, inv.tail, inv.head) in
        rw (ap (λ t. t == s.ring.head) same ∙ ==-refl s.ring.head) refl
    takes {s} (v ∷ vs) inv =
        let ne : s.ring.tail ≢ s.ring.head =
          λ e. absurd (omega (arith, e, inv.tail, inv.head, inv.few, word)) in
        let about = consume k word in_word inv (has_value s.ring.tail) (inv.tail, omega arith) in
        rw (ne→not_== s.ring.tail s.ring.head ne)
          (ap some (sym (read_it k word in_word about refl).1))

-- Between two calls of the producer, in any state that the two threads get to, a call of `try_push`
-- returns true exactly when fewer values than the capacity are on their way. When nothing interrupts
-- it, it is a run of the producer's steps alone, which looks at the head and the tail and then
-- passes the value on exactly when the call returns true. The capacity is `2 ^ k` and a word.
pub try_push-Steps :
    {T : Type 0} (k : ℕ) {storage : ℕ → T} {s : System T} (v : T)
    → capacity k < 2 ^ 64
    → k ≤ 64
    → Reach k storage s
    → s.producer ≡ ready
    → (pending : List T) × OnTheirWay s pending
      × ((try_push k s.ring v).1 ≡ ltb (length pending) (capacity k))
      × ProducerSteps k s (record s { producer = knows_head v s.ring.head })
      × ProducerSteps k (record s { producer = knows_head v s.ring.head }) (pushed k s v)
try_push-Steps k {s = s} v word in_word r e =
    let (pending, inv) = Reach-Queued k word in_word r in
    (pending, inv.sent, accepts k word in_word inv v, push_begun k s v e, push_ended k s v e)

-- Between two calls of the consumer, in any state that the two threads get to, a call of `try_pop`
-- returns the first of the values on their way, and nothing exactly when there is none. When nothing
-- interrupts it, it is a run of the consumer's steps alone, which looks at the tail and the head and
-- then receives the value that the call returns. The capacity is `2 ^ k` and a word.
pub try_pop-Steps :
    {T : Type 0} (k : ℕ) {storage : ℕ → T} {s : System T}
    → capacity k < 2 ^ 64
    → k ≤ 64
    → Reach k storage s
    → s.consumer ≡ waiting
    → (pending : List T) × OnTheirWay s pending
      × ((try_pop k s.ring).1 ≡ first pending none)
      × ConsumerSteps k s (record s { consumer = knows_tail s.ring.tail })
      × ConsumerSteps k (record s { consumer = knows_tail s.ring.tail }) (popped k s)
try_pop-Steps k {s = s} word in_word r e =
    let (pending, inv) = Reach-Queued k word in_word r in
    (pending, inv.sent, takes k word in_word pending inv, pop_begun k s e, pop_ended k s e)

-- ===== src/Logging/SpscRing.antt =====
-- src/logging/SpscRing.h: a ring between one producer and one consumer thread. Its capacity is
-- `2 ^ k`, as the static assertion demands. The calls are functions, as when nothing happens
-- meanwhile; `Step` interleaves what the two threads do, one load, store or copy at a time.
pub mod Queue
pub mod Moves
pub mod Steps
pub mod Safety
pub mod Calls
mod Examples
use sixchange.Base.{
  ℕ, Bool, true, false, Option, none, some, List, [], ◌∷◌, ◌++◌, ◌≡◌, ◌-◌, ◌^◌, ◌==◌, leb, bit_and,
  add64, sub64, if◌then◌else◌,
}

pub record SpscRing (T : Type 0) : Type 0 where
  pub storage : ℕ → T
  pub head : ℕ
  pub tail : ℕ

-- An element of the storage is assigned.
unfoldable pub store : {T : Type 0} → (ℕ → T) → ℕ → T → ℕ → T
store storage i value j = if j == i then value else storage j

-- Where the producer's thread is in `try_push`, with its local variables.
pub data Producer (T : Type 0) : Type 0 where
  ready : Producer T
  pushing : T → Producer T
  knows_head : T → (head : ℕ) → Producer T
  has_room : T → (head : ℕ) → Producer T
  wrote : T → (head : ℕ) → Producer T

-- Where the consumer's thread is in `try_pop`.
pub data Consumer (T : Type 0) : Type 0 where
  waiting : Consumer T
  popping : Consumer T
  knows_tail : (tail : ℕ) → Consumer T
  has_value : (tail : ℕ) → Consumer T
  took : (tail : ℕ) → T → Consumer T

-- The ring, the two threads, and what they have passed on so far: the values of the calls of
-- `try_push` that returned true, and those that `try_pop` returned.
pub record System (T : Type 0) : Type 0 where
  pub ring : SpscRing T
  pub producer : Producer T
  pub consumer : Consumer T
  pub sent : List T
  pub received : List T

abbrev pub start : {T : Type 0} → (ℕ → T) → System T
start storage = record {
  ring = record { storage = storage; head = 0; tail = 0 };
  producer = ready;
  consumer = waiting;
  sent = [];
  received = [];
}

abbrev pub capacity : (k : ℕ) → ℕ
capacity k = 2 ^ k

-- `position & mask_`
unfoldable pub slot : (k position : ℕ) → ℕ
slot k position = bit_and position (capacity k - 1)

unfoldable pub is_full : (k head tail : ℕ) → Bool
is_full k head tail = leb (capacity k) (sub64 head tail)

unfoldable pub empty : {T : Type 0} → SpscRing T → Bool
empty r = r.tail == r.head

module _ {T : Type 0} (k : ℕ) where
  unfoldable pub try_push : SpscRing T → T → SpscRing T × Bool
  unfolding is_full slot store
  try_push r value = if is_full k r.head r.tail then (r, false) else (
    record {
      storage = store r.storage (slot k r.head) value;
      head = add64 r.head 1;
      tail = r.tail;
    },
    true,
  )

  unfoldable pub try_pop : SpscRing T → SpscRing T × Option T
  unfolding slot
  try_pop r =
      if r.tail == r.head
      then (r, none)
      else (record r { tail = add64 r.tail 1 }, some (r.storage (slot k r.tail)))

  -- One action of either thread.
  pub data Step : System T → System T → Type 0 where
    begin_push :
        {s : System T} (v : T) → s.producer ≡ ready → Step s (record s { producer = pushing v })
    load_head :
        {s : System T} {v : T}
        → s.producer ≡ pushing v
        → Step s (record s { producer = knows_head v s.ring.head })
    find_full :
        {s : System T} {v : T} {head : ℕ}
        → s.producer ≡ knows_head v head
        → is_full k head s.ring.tail ≡ true
        → Step s (record s { producer = ready })
    find_room :
        {s : System T} {v : T} {head : ℕ}
        → s.producer ≡ knows_head v head
        → is_full k head s.ring.tail ≡ false
        → Step s (record s { producer = has_room v head })
    write_slot :
        {s : System T} {v : T} {head : ℕ}
        → s.producer ≡ has_room v head
        → Step s (record s {
          ring = record (s.ring) { storage = store s.ring.storage (slot k head) v };
          producer = wrote v head;
        })
    publish :
        {s : System T} {v : T} {head : ℕ}
        → s.producer ≡ wrote v head
        → Step s (record s {
          ring = record (s.ring) { head = add64 head 1 };
          producer = ready;
          sent = s.sent ++ v ∷ [];
        })
    begin_pop : {s : System T} → s.consumer ≡ waiting → Step s (record s { consumer = popping })
    load_tail :
        {s : System T}
        → s.consumer ≡ popping
        → Step s (record s { consumer = knows_tail s.ring.tail })
    find_empty :
        {s : System T} {tail : ℕ}
        → s.consumer ≡ knows_tail tail
        → (tail == s.ring.head) ≡ true
        → Step s (record s { consumer = waiting })
    find_value :
        {s : System T} {tail : ℕ}
        → s.consumer ≡ knows_tail tail
        → (tail == s.ring.head) ≡ false
        → Step s (record s { consumer = has_value tail })
    read_slot :
        {s : System T} {tail : ℕ}
        → s.consumer ≡ has_value tail
        → Step s (record s { consumer = took tail (s.ring.storage (slot k tail)) })
    release :
        {s : System T} {tail : ℕ} {v : T}
        → s.consumer ≡ took tail v
        → Step s (record s {
          ring = record (s.ring) { tail = add64 tail 1 };
          consumer = waiting;
          received = s.received ++ v ∷ [];
        })

  -- The states that the two threads can get to.
  pub data Reach (storage : ℕ → T) : System T → Type 0 where
    at_start : Reach storage (start storage)
    later : {s s' : System T} → Reach storage s → Step s s' → Reach storage s'

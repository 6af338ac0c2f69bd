-- ===== src/Engine/FixedOrderMap.antt =====
-- src/engine/FixedOrderMap.h: a hash table of fixed capacity with linear probing and
-- backward-shift deletion. `V` is the template's `Value`, and `blank` its `Value{}`. The array is
-- a function of the index; indices stay below the capacity.
use sixchange.Base.{
  ℕ, zero, suc, ◌-◌, ◌/◌, ◌^◌, Bool, true, false, not, ◌&&◌, Option, none, some, bit_and, bit_xor,
  ltb, ◌==◌, if◌then◌else◌, add64, sub64, mul64,
}

pub data InsertResult : Type 0 where
  inserted duplicate_key full : InsertResult

pub record Entry (V : Type 0) : Type 0 where
  pub key : ℕ
  pub value : V
  pub occupied : Bool

abbrev pub empty_entry : {V : Type 0} → V → Entry V
empty_entry blank = record { key = 0; value = blank; occupied = false }

pub record FixedOrderMap (V : Type 0) : Type 0 where
  pub capacity : ℕ
  pub mask : ℕ
  pub entries : ℕ → Entry V
  pub size : ℕ

-- std::has_single_bit
unfoldable pub has_single_bit : ℕ → Bool
has_single_bit n = not (n == 0) && bit_and n (n - 1) == 0

-- The constructor, `none` where it throws.
unfoldable pub make : {V : Type 0} → V → ℕ → Option (FixedOrderMap V)
unfolding has_single_bit
make blank capacity =
    if has_single_bit capacity
    then some (record {
      capacity = capacity;
      mask = sub64 capacity 1;
      entries = λ _. empty_entry blank;
      size = 0;
    })
    else none

-- The mixing steps of `bucket`, before the mask.
unfoldable pub mix : ℕ → ℕ
mix key =
    let a = add64 key 0x9e3779b97f4a7c15 in
    let b = mul64 (bit_xor a (a / 2 ^ 30)) 0xbf58476d1ce4e5b9 in
    let c = mul64 (bit_xor b (b / 2 ^ 27)) 0x94d049bb133111eb in bit_xor c (c / 2 ^ 31)

module _ {V : Type 0} where
  unfoldable pub bucket : FixedOrderMap V → ℕ → ℕ
  unfolding mix
  bucket m key = bit_and (mix key) m.mask

  unfoldable pub next_bucket : FixedOrderMap V → ℕ → ℕ
  next_bucket m index = bit_and (add64 index 1) m.mask

  unfoldable pub probe_distance : FixedOrderMap V → (from to : ℕ) → ℕ
  probe_distance m from to = bit_and (sub64 to from) m.mask

  unfoldable pub put : (ℕ → Entry V) → ℕ → Entry V → ℕ → Entry V
  put es i e j = if j == i then e else es j

  -- The loop of `insert`, with the number of probes left.
  unfoldable pub insert_from :
      FixedOrderMap V → (rounds index key : ℕ) → V → FixedOrderMap V × InsertResult
  unfolding next_bucket put
  insert_from m zero index key value = (m, full)
  insert_from m (suc rounds) index key value =
      let rest = insert_from m rounds (next_bucket m index) key value in
      if not (m.entries index).occupied
      then (
        record m {
          entries = put m.entries index (record { key = key; value = value; occupied = true });
          size = add64 m.size 1;
        },
        inserted,
      )
      else if (m.entries index).key == key
      then (m, duplicate_key)
      else rest

  unfoldable pub insert : FixedOrderMap V → ℕ → V → FixedOrderMap V × InsertResult
  unfolding insert_from bucket
  insert m key value = insert_from m m.capacity (bucket m key) key value

  -- The loop of `find_index`; the capacity stands for "not found".
  unfoldable pub find_from : FixedOrderMap V → (rounds index key : ℕ) → ℕ
  unfolding next_bucket
  find_from m zero index key = m.capacity
  find_from m (suc rounds) index key =
      let rest = find_from m rounds (next_bucket m index) key in
      if not (m.entries index).occupied
      then m.capacity
      else if (m.entries index).key == key
      then index
      else rest

  unfoldable pub find_index : FixedOrderMap V → ℕ → ℕ
  unfolding find_from bucket
  find_index m key = find_from m m.capacity (bucket m key) key

  unfoldable pub find : FixedOrderMap V → ℕ → Option V
  unfolding find_index
  find m key =
      let index = find_index m key in
      if index == m.capacity then none else some (m.entries index).value

  unfoldable pub contains : FixedOrderMap V → ℕ → Bool
  unfolding find_index
  contains m key = not (find_index m key == m.capacity)

  -- The loop of `erase`, with the number of entries left to examine.
  unfoldable pub close_gap : V → FixedOrderMap V → (rounds hole scan : ℕ) → FixedOrderMap V
  unfolding next_bucket put bucket probe_distance
  close_gap blank m zero hole scan = m
  close_gap blank m (suc rounds) hole scan =
      let home = bucket m (m.entries scan).key in
      let moved = record m {
        entries = put (put m.entries hole (m.entries scan)) scan (empty_entry blank);
      } in
      let shifted = close_gap blank moved rounds scan (next_bucket m scan) in
      let kept = close_gap blank m rounds hole (next_bucket m scan) in
      if not (m.entries scan).occupied
      then m
      else if ltb (probe_distance m home hole) (probe_distance m home scan)
      then shifted
      else kept

  unfoldable pub erase : V → FixedOrderMap V → ℕ → FixedOrderMap V × Bool
  unfolding find_index put next_bucket close_gap
  erase blank m key =
      let index = find_index m key in
      let cleared = record m {
        entries = put m.entries index (empty_entry blank);
        size = sub64 m.size 1;
      } in
      if index == m.capacity
      then (m, false)
      else (close_gap blank cleared (m.capacity - 1) index (next_bucket m index), true)

  unfoldable pub empty : FixedOrderMap V → Bool
  empty m = m.size == 0

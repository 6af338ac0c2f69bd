-- ===== src/Logging/SpscRing/Queue.antt =====
-- What the ring and the threads' local variables mean: the values on their way, oldest first.
use sixchange.Base.{
  ℕ, zero, suc, ◌+◌, ◌%◌, ◌^◌, ◌≤◌, ◌<◌, ◌≡◌, ◌≢◌, sym, ap, ◌∙◌, subst, List, [], ◌∷◌, ◌++◌, arith,
  length, ==-refl, ne→not_==, mod-ne, bit_and-mask, mod-mod_pow,
}
use sixchange.Logging.SpscRing.{
  System, Producer, Consumer, ready, pushing, knows_head, has_room, wrote, waiting, popping,
  knows_tail, has_value, took, slot, store, capacity,
}

pub slot-mod : (k n : ℕ) → k ≤ 64 → slot k (n % 2 ^ 64) ≡ n % capacity k
unfolding slot
slot-mod k n le = bit_and-mask (n % 2 ^ 64) k ∙ mod-mod_pow n k le

module _ {T : Type 0} (k : ℕ) where
  -- The values stand in the storage from the position `m` on.
  abbrev pub Stored : (ℕ → T) → (m : ℕ) → List T → Type 0
  Stored storage m [] = Unit
  Stored storage m (v ∷ vs) = (storage (m % capacity k) ≡ v) × Stored storage (m + 1) vs

  Stored-store_at :
      (storage : ℕ → T) (m d : ℕ) (value : T) (vs : List T)
      → length vs ≤ d
      → d < capacity k
      → Stored storage m vs
      → Stored (store storage ((m + d) % capacity k) value) m vs
  unfolding store
  Stored-store_at storage m d value [] le lt all = tt
  Stored-store_at storage m zero value (v ∷ vs) le lt all = absurd (omega arith)
  Stored-store_at storage m (suc d) value (v ∷ vs) le lt all =
      let apart : m % capacity k ≢ (m + suc d) % capacity k =
        λ e. mod-ne m (suc d) (capacity k) (omega arith) lt (sym e) in
      let later = Stored-store_at storage (m + 1) d value vs (omega arith) (omega arith) all.1 in
      let same : m + 1 + d ≡ m + suc d = omega arith in
      (
        rw (ne→not_== (m % capacity k) ((m + suc d) % capacity k) apart) all.0,
        subst (λ n. Stored (store storage (n % capacity k) value) (m + 1) vs) same later,
      )

  -- A write behind the values leaves them.
  pub Stored-store :
      (storage : ℕ → T) (m : ℕ) (value : T) (vs : List T)
      → length vs < capacity k
      → Stored storage m vs
      → Stored (store storage ((m + length vs) % capacity k) value) m vs
  Stored-store storage m value vs lt all =
      Stored-store_at storage m (length vs) value vs (omega arith) lt all

  pub Stored-snoc :
      (storage : ℕ → T) (m : ℕ) (v : T) (vs : List T)
      → Stored storage m vs
      → storage ((m + length vs) % capacity k) ≡ v
      → Stored storage m (vs ++ v ∷ [])
  Stored-snoc storage m v [] all e = (ap storage (ap (λ n. n % capacity k) (omega arith)) ∙ e, tt)
  Stored-snoc storage m v (w ∷ vs) all e = (
    all.0,
    Stored-snoc storage (m + 1) v vs all.1
        (ap storage (ap (λ n. n % capacity k) (omega arith)) ∙ e),
  )

  pub store_self : (storage : ℕ → T) (i : ℕ) (v : T) → store storage i v i ≡ v
  unfolding store
  store_self storage i v = rw (==-refl i)

-- The value is the first one on its way.
abbrev pub Starts : {T : Type 0} → List T → T → Type 0
Starts [] v = ⊥
Starts (w ∷ vs) v = w ≡ v

-- What the local variables of the producer say, when `m` values have been received and `n` are on
-- their way.
abbrev pub Producing : {T : Type 0} → (k : ℕ) → (ℕ → T) → (m n : ℕ) → Producer T → Type 0
Producing k storage m n ready = Unit
Producing k storage m n (pushing v) = Unit
Producing k storage m n (knows_head v head) = head ≡ (m + n) % 2 ^ 64
Producing k storage m n (has_room v head) = (head ≡ (m + n) % 2 ^ 64) × (n < capacity k)
Producing k storage m n (wrote v head) =
    (head ≡ (m + n) % 2 ^ 64) × (n < capacity k) × (storage ((m + n) % capacity k) ≡ v)

abbrev pub Consuming : {T : Type 0} → (m : ℕ) → List T → Consumer T → Type 0
Consuming m pending waiting = Unit
Consuming m pending popping = Unit
Consuming m pending (knows_tail tail) = tail ≡ m % 2 ^ 64
Consuming m pending (has_value tail) = (tail ≡ m % 2 ^ 64) × (0 < length pending)
Consuming m pending (took tail v) = (tail ≡ m % 2 ^ 64) × Starts pending v

-- The ring as a queue: `pending` has been sent and not received, and stands in the storage.
pub record IsQueue {T : Type 0} (k : ℕ) (s : System T) (pending : List T) : Type 0 where
  pub sent : s.sent ≡ s.received ++ pending
  pub few : length pending ≤ capacity k
  pub head : s.ring.head ≡ (length s.received + length pending) % 2 ^ 64
  pub tail : s.ring.tail ≡ length s.received % 2 ^ 64
  pub stored : Stored k s.ring.storage (length s.received) pending
  pub producing : Producing k s.ring.storage (length s.received) (length pending) s.producer
  pub consuming : Consuming (length s.received) pending s.consumer

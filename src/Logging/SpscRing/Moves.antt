-- ===== src/Logging/SpscRing/Moves.antt =====
-- What each step does to the queue that the ring is.
use sixchange.Base.{
  ℕ, ◌+◌, ◌%◌, ◌^◌, ◌≤◌, ◌<◌, ◌≡◌, sym, ap, ◌∙◌, subst, List, [], ◌∷◌, ◌++◌, arith, length,
  length-append, false, not_leb→lt, sub64, add64, ◌==◌, not_==→ne,
}
use mathlib.Core.List.{append_assoc}
use sixchange.Logging.SpscRing.{
  System, Producer, Consumer, ready, pushing, knows_head, has_room, wrote, waiting, popping,
  knows_tail, has_value, took, slot, store, capacity, is_full,
}
use sixchange.Logging.SpscRing.Queue.{
  Stored, Stored-store, Stored-snoc, slot-mod, store_self, Starts, Producing, Consuming, IsQueue,
}

module _ {T : Type 0} (k : ℕ) (word : capacity k < 2 ^ 64) (in_word : k ≤ 64) where
  -- The oldest value has left.
  Producing-received :
      (storage : ℕ → T) (m m' n : ℕ) (p : Producer T)
      → m' ≡ m + 1
      → Producing k storage m (n + 1) p
      → Producing k storage m' n p
  Producing-received storage m m' n ready e said = tt
  Producing-received storage m m' n (pushing v) e said = tt
  Producing-received storage m m' n (knows_head v h) e said = omega arith
  Producing-received storage m m' n (has_room v h) e said =
      (omega (arith, said.0), omega (arith, said.1))
  Producing-received storage m m' n (wrote v h) e said = (
    omega (arith, said.0),
    omega (arith, said.1),
    ap (λ i. storage (i % capacity k)) (omega arith) ∙ said.2,
  )

  module _ {s : System T} {pending : List T} (inv : IsQueue k s pending) where
    open inv use {sent, few, head, tail, stored, producing, consuming}

    pub produced :
        {p : Producer T}
        → s.producer ≡ p
        → Producing k s.ring.storage (length s.received) (length pending) p
    produced e = subst (Producing k s.ring.storage (length s.received) (length pending)) e producing

    pub consumed : {c : Consumer T} → s.consumer ≡ c → Consuming (length s.received) pending c
    consumed e = subst (Consuming (length s.received) pending) e consuming

    pub room :
        {v : T} {h : ℕ}
        → s.producer ≡ knows_head v h
        → is_full k h s.ring.tail ≡ false
        → length pending < capacity k
    unfolding is_full
    room {h = h} e free =
        omega
          (arith, produced e, tail, not_leb→lt (capacity k) (sub64 h s.ring.tail) free, few, word)

    pub arrived :
        {t : ℕ} → s.consumer ≡ knows_tail t → (t == s.ring.head) ≡ false → 0 < length pending
    arrived {t} e more = omega (arith, consumed e, head, not_==→ne t s.ring.head more)

    -- A step of the producer that changes nothing but its local variables.
    pub produce :
        (p : Producer T)
        → Producing k s.ring.storage (length s.received) (length pending) p
        → IsQueue k (record s { producer = p }) pending
    produce p said = record {
      sent = sent;
      few = few;
      head = head;
      tail = tail;
      stored = stored;
      producing = said;
      consuming = consuming;
    }

    pub consume :
        (c : Consumer T)
        → Consuming (length s.received) pending c
        → IsQueue k (record s { consumer = c }) pending
    consume c said = record {
      sent = sent;
      few = few;
      head = head;
      tail = tail;
      stored = stored;
      producing = producing;
      consuming = said;
    }

    pub wrote_slot :
        {v : T} {h : ℕ}
        → s.producer ≡ has_room v h
        → IsQueue k
            (record s {
              ring = record (s.ring) { storage = store s.ring.storage (slot k h) v };
              producer = wrote v h;
            })
            pending
    wrote_slot {v} {h} e =
        let said = produced e in
        let m = length s.received in
        let at : slot k h ≡ (m + length pending) % capacity k =
          ap (slot k) said.0 ∙ slot-mod k (m + length pending) in_word in
        record {
          sent = sent;
          few = few;
          head = head;
          tail = tail;
          stored =
              subst (λ i. Stored k (store s.ring.storage i v) m pending) (sym at)
                (Stored-store k s.ring.storage m v pending said.1 stored);
          producing = (
            said.0,
            said.1,
            ap (store s.ring.storage (slot k h) v) (sym at)
                ∙ store_self k s.ring.storage (slot k h) v,
          );
          consuming = consuming;
        }

    Starts-append : (v : T) (vs ws : List T) → Starts vs v → Starts (vs ++ ws) v
    Starts-append v [] ws first = elim first [ ]
    Starts-append v (w ∷ vs) ws first = first

    Consuming-append :
        (v : T) (c : Consumer T)
        → Consuming (length s.received) pending c
        → Consuming (length s.received) (pending ++ v ∷ []) c
    Consuming-append v waiting said = tt
    Consuming-append v popping said = tt
    Consuming-append v (knows_tail t) said = said
    Consuming-append v (has_value t) said =
        (said.0, omega (arith, said.1, length-append pending (v ∷ [])))
    Consuming-append v (took t w) said = (said.0, Starts-append w pending (v ∷ []) said.1)

    pub published :
        {v : T} {h : ℕ}
        → s.producer ≡ wrote v h
        → IsQueue k
            (record s {
              ring = record (s.ring) { head = add64 h 1 };
              producer = ready;
              sent = s.sent ++ v ∷ [];
            })
            (pending ++ v ∷ [])
    published {v} {h} e =
        let said = produced e in
        let more = length-append pending (v ∷ []) in
        record {
          sent = ap (λ vs. vs ++ v ∷ []) sent ∙ append_assoc s.received pending (v ∷ []);
          few = omega (arith, said.1, more);
          head = omega (arith, said.0, more);
          tail = tail;
          stored = Stored-snoc k s.ring.storage (length s.received) v pending stored said.2;
          producing = tt;
          consuming = Consuming-append v s.consumer consuming;
        }

    pub read_it :
        {t : ℕ}
        → s.consumer ≡ has_value t
        → Consuming (length s.received) pending (took t (s.ring.storage (slot k t)))
    read_it {t} e =
        let said = consumed e in
        (
          said.0,
          first pending stored said.1
              (ap s.ring.storage (ap (slot k) said.0 ∙ slot-mod k (length s.received) in_word)),
        )
      where
        first :
            (vs : List T)
            → Stored k s.ring.storage (length s.received) vs
            → 0 < length vs
            → s.ring.storage (slot k t) ≡ s.ring.storage (length s.received % capacity k)
            → Starts vs (s.ring.storage (slot k t))
        first [] all some_left at = absurd (omega arith)
        first (v ∷ vs) all some_left at = sym (at ∙ all.0)

  pub received_one :
      {s : System T} (pending : List T) {t : ℕ} {v : T}
      → IsQueue k s pending
      → s.consumer ≡ took t v
      → (rest : List T) × IsQueue k
          (record s {
            ring = record (s.ring) { tail = add64 t 1 };
            consumer = waiting;
            received = s.received ++ v ∷ [];
          })
          rest
  received_one [] inv e = elim (consumed inv e).1 [ ]
  received_one {s} (w ∷ rest) {t} {v} inv e =
      let said = consumed inv e in
      let m = length s.received in
      let more : length (s.received ++ v ∷ []) ≡ m + 1 = length-append s.received (v ∷ []) in
      (
        rest,
        record {
          sent =
              inv.sent
              ∙ ap (λ x. s.received ++ x ∷ rest) said.1
              ∙ sym (append_assoc s.received (v ∷ []) rest);
          few = omega (arith, inv.few);
          head = omega (arith, inv.head, more);
          tail = omega (arith, said.0, more);
          stored = subst (λ n. Stored k s.ring.storage n rest) (sym more) inv.stored.1;
          producing =
              Producing-received s.ring.storage m (length (s.received ++ v ∷ [])) (length rest)
                s.producer more
                (subst (λ n. Producing k s.ring.storage m n s.producer) (omega arith)
                  inv.producing);
          consuming = tt;
        },
      )

-- ===== src/Engine/OrderBook/Settling.antt =====
-- What a trade does to the quantities.
use sixchange.Base.{
  ℕ, ◌-◌, ◌≤◌, ◌<◌, ◌^◌, ◌≡◌, ◌≢◌, refl, sym, ap, subst, ◌∙◌, ◌⊎◌, inl, inr, none, some, List, [],
  ◌∷◌, arith, All, All-map, Absent, eq_or_ne, sub64, sub64_mod, sub64_le,
}
use sixchange.Core.Enums.{Side}
use sixchange.Engine.Order.{Order, OrderPtr, Slots, write, write_self, write-ne}
use sixchange.Engine.PriceLevel.Chain.{Chain}
use sixchange.Engine.PriceLevel.Queue.{volume, IsQueue}
use sixchange.Engine.OrderBook.State.{HalfBook, set_level}
use sixchange.Engine.OrderBook.Contents.{Contents}
use sixchange.Engine.OrderBook.Invariant.{IsMember, IsHalf, IsQueue-agree, Foreign}
use sixchange.Engine.OrderBook.Resting.{set_level_self, set_level-ne}
use sixchange.Engine.OrderBook.Matching.{settle}

-- The order with a smaller quantity.
abbrev pub reduced : Order → ℕ → Order
reduced o quantity = record o { remaining_quantity = o.remaining_quantity - quantity }

module _ (h : Slots) (a r q : ℕ) (ne : a ≢ r) (qa : q ≤ (h a).remaining_quantity)
    (qr : q ≤ (h r).remaining_quantity) (wa : (h a).remaining_quantity < 2 ^ 64)
    (wr : (h r).remaining_quantity < 2 ^ 64) where
  pub settle-aggressor : settle h a r q a ≡ reduced (h a) q
  unfolding settle
  settle-aggressor =
      write-ne (write h a _) r a _ ne
      ∙ write_self h a _
      ∙ ap (λ (n : ℕ). record (h a) { remaining_quantity = n }) (sub64_le _ q wa qa)

  pub settle-resting : settle h a r q r ≡ reduced (h r) q
  unfolding settle
  settle-resting =
      write_self (write h a _) r _
      ∙ ap (λ (o : Order). record o { remaining_quantity = sub64 o.remaining_quantity q })
          (write-ne h a r _ (λ e. ne (sym e)))
      ∙ ap (λ (n : ℕ). record (h r) { remaining_quantity = n }) (sub64_le _ q wr qr)

  pub settle-ne : (x : ℕ) → x ≢ a → x ≢ r → settle h a r q x ≡ h x
  unfolding settle
  settle-ne x na nr = write-ne (write h a _) r x _ nr ∙ write-ne h a x _ na

-- Everything but the quantity stays, at every address.
abbrev unpriced : Order → Order
unpriced o = record o { remaining_quantity = 0 }

pub settle-unpriced : (h : Slots) (a r q x : ℕ) → unpriced (settle h a r q x) ≡ unpriced (h x)
unfolding settle write
settle-unpriced h a r q x = ground arith

Chain-unpriced :
    (h g : Slots) (before : OrderPtr) (xs : List ℕ) (after : OrderPtr)
    → ((x : ℕ) → unpriced (g x) ≡ unpriced (h x))
    → Chain h before xs after
    → Chain g before xs after
Chain-unpriced h g before [] after same c = tt
Chain-unpriced h g before (x ∷ xs) after same c = (
  ap (λ (o : Order). o.prev) (same x) ∙ c.0,
  ap (λ (o : Order). o.next) (same x) ∙ c.1,
  Chain-unpriced h g (some x) xs after same c.2,
)

-- The trade's level: its total goes down by the quantity.
abbrev pub lowered : HalfBook → (i q : ℕ) → HalfBook
lowered s i q = record s {
  levels =
      set_level s.levels i
        (record (s.levels i) { total_quantity = sub64 (s.levels i).total_quantity q });
}

module _ (side : Side) (count : ℕ) (s : HalfBook) (v : Contents) (h : Slots)
    (k : IsHalf side count s v h) (i r : ℕ) (rest : List ℕ) (here : v i ≡ r ∷ rest) (a q : ℕ)
    (out : Foreign a v) (qa : q ≤ (h a).remaining_quantity) (qr : q ≤ (h r).remaining_quantity)
    (wa : (h a).remaining_quantity < 2 ^ 64) where
  g : Slots
  g = settle h a r q

  here_queue : IsQueue (s.levels i) (r ∷ rest) h
  here_queue = subst (λ xs. IsQueue (s.levels i) xs h) here (k.queues i)

  here_members : All (λ x. IsMember side i (h x)) (r ∷ rest)
  here_members = subst (All (λ x. IsMember side i (h x))) here (k.members i)

  here_out : Absent a (r ∷ rest)
  here_out = subst (Absent a) here (out i)

  ne : a ≢ r
  ne e = here_out.0 (sym e)

  r_is : g r ≡ reduced (h r) q
  unfolding g
  r_is = settle-resting h a r q ne qa qr wa here_members.0.in_word

  behind : (xs : List ℕ) → Absent a xs → Absent r xs → All (λ x. g x ≡ h x) xs
  unfolding g
  behind [] oa or = tt
  behind (x ∷ xs) oa or =
      (settle-ne h a r q ne qa qr wa here_members.0.in_word x oa.0 or.0, behind xs oa.1 or.1)

  volume-behind : (xs : List ℕ) → All (λ x. g x ≡ h x) xs → volume g xs ≡ volume h xs
  volume-behind [] all = refl
  volume-behind (x ∷ xs) all =
      omega (arith, ap (λ (o : Order). o.remaining_quantity) all.0, volume-behind xs all.1)

  rest_agrees : All (λ x. g x ≡ h x) rest
  rest_agrees = behind rest here_out.1 here_queue.distinct.0

  here_settled :
      IsQueue
        (record (s.levels i) { total_quantity = sub64 (s.levels i).total_quantity q })
        (r ∷ rest)
        g
  unfolding g
  here_settled = record {
    head = here_queue.head;
    tail = here_queue.tail;
    chain = Chain-unpriced h g none (r ∷ rest) none (settle-unpriced h a r q) here_queue.chain;
    distinct = here_queue.distinct;
    total = sub64_mod _ q _ (
        omega (
          arith,
          here_queue.total,
          ap (λ (o : Order). o.remaining_quantity) r_is,
          volume-behind rest rest_agrees,
          qr,
        ));
  }

  elsewhere : (j x : ℕ) → j ≢ i → IsMember side j (h x) → x ≢ r
  elsewhere j x far m e = far (sym m.at_price ∙ ap (λ z. (h z).price) e ∙ here_members.0.at_price)

  other_level : (j : ℕ) → j ≢ i → All (λ x. g x ≡ h x) (v j)
  other_level j far =
      behind (v j) (out j) (All-map (λ x m. elsewhere j x far m) (v j) (k.members j))

  settled-IsMember : (j x : ℕ) → IsMember side j (h x) → IsMember side j (g x)
  unfolding g
  settled-IsMember j x m = record {
    on_side = ap (λ (o : Order). o.side) (settle-unpriced h a r q x) ∙ m.on_side;
    at_price = ap (λ (o : Order). o.price) (settle-unpriced h a r q x) ∙ m.at_price;
    in_word = settled_word (eq_or_ne x a) (eq_or_ne x r);
    is_active = ap (λ (o : Order). o.active) (settle-unpriced h a r q x) ∙ m.is_active;
  }
    where
      settled_word :
          (x ≡ a) ⊎ (x ≢ a) → (x ≡ r) ⊎ (x ≢ r) → (settle h a r q x).remaining_quantity < 2 ^ 64
      settled_word (inl e) _ =
          rw (e, settle-aggressor h a r q ne qa qr wa here_members.0.in_word) (omega (arith, wa))
      settled_word (inr na) (inl e) =
          rw (e, settle-resting h a r q ne qa qr wa here_members.0.in_word)
            (omega (arith, here_members.0.in_word))
      settled_word (inr na) (inr nr) =
          rw (settle-ne h a r q ne qa qr wa here_members.0.in_word x na nr) m.in_word

  queue_at : (j : ℕ) → (j ≡ i) ⊎ (j ≢ i) → IsQueue ((lowered s i q).levels j) (v j) g
  queue_at j (inl same) =
      rw
        (
          same,
          set_level_self s.levels i
              (record (s.levels i) { total_quantity = sub64 (s.levels i).total_quantity q }),
          here,
        )
        here_settled
  queue_at j (inr far) =
      rw
        (set_level-ne s.levels i j
          (record (s.levels i) { total_quantity = sub64 (s.levels i).total_quantity q }) far)
        (IsQueue-agree (s.levels j) (v j) h g (other_level j far) (k.queues j))

  -- A trade at the front of a level leaves the side as it was, apart from the quantities.
  pub lowered-IsHalf : IsHalf side count (lowered s i q) v (settle h a r q)
  unfolding g
  lowered-IsHalf = record {
    queues = λ j. queue_at j (eq_or_ne j i);
    members = λ j. All-map (λ x m. settled-IsMember j x m) (v j) (k.members j);
    beyond = k.beyond;
    best = k.best;
    active = k.active;
  }

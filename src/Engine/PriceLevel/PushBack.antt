-- ===== src/Engine/PriceLevel/PushBack.antt =====
-- `push_back` puts an order behind the queue.
use sixchange.Base.{
  ℕ, ◌%◌, ◌^◌, ◌≡◌, ◌≢◌, refl, sym, ap, ◌∙◌, none, some, List, [], ◌∷◌, ◌++◌, arith, first, last,
  last-append, last-some, subst, Absent, add64, Distinct-snoc,
}
use sixchange.Engine.Order.{OrderPtr, Order, Slots, write, write_self, write-ne}
use sixchange.Engine.PriceLevel.{PriceLevel, set_next, new_end, push_back}
use sixchange.Engine.PriceLevel.Chain.{Chain, Chain-write, Chain-append}
use sixchange.Engine.PriceLevel.Queue.{
  SameOrders, volume, IsQueue, volume-append, volume-same, set_next-same, set_next-ne,
  Chain-set_next,
}

-- The order gets its links, and nothing else changes.
relinked : Slots → ℕ → OrderPtr → Slots
relinked h p q = write h p (record (h p) { prev = q; next = none })

relinked-same : (h : Slots) (p : ℕ) (q : OrderPtr) → SameOrders h (relinked h p q)
unfolding relinked write
relinked-same h p q x = ground arith

pub record Pushed (l : PriceLevel) (xs : List ℕ) (p : ℕ) (h : Slots) (r : PriceLevel × Slots)
    : Type 0 where
  pub queue : IsQueue r.0 (xs ++ p ∷ []) r.1
  pub price : r.0.price ≡ l.price
  pub same : SameOrders h r.1
  pub frame : (x : ℕ) → Absent x xs → x ≢ p → r.1 x ≡ h x

new_head :
    (xs : List ℕ) (p : ℕ)
    → new_end (last none xs) (some p) (first xs none) ≡ first (xs ++ p ∷ []) none
unfolding new_end
new_head [] p = refl
new_head (x ∷ xs) p = rw ((last-some x xs).1, new_end)

module _ (l : PriceLevel) (xs : List ℕ) (p : ℕ) (h : Slots) (q : IsQueue l xs h)
    (out : Absent p xs) where
  h1 : Slots
  h1 = relinked h p l.tail

  h2 : Slots
  h2 = set_next l.tail (some p) h1

  linked-same : SameOrders h h2
  unfolding h1 h2
  linked-same x = set_next-same l.tail (some p) h1 x ∙ relinked-same h p l.tail x

  chain1 : Chain h1 none xs none
  unfolding h1 relinked
  chain1 = Chain-write h p _ none xs none out q.chain

  own : h2 p ≡ record (h p) { prev = l.tail; next = none }
  unfolding h1 h2 relinked
  own = rw q.tail (set_next-ne xs none (some p) _ p (λ e. cc) out ∙ write_self h p _)

  linked : Chain h2 none xs (some p)
  unfolding h2
  linked =
      subst (λ t. Chain (set_next t (some p) h1) none xs (some p)) (sym q.tail)
        (Chain-set_next xs (some p) h1 none q.distinct chain1)

  chain : Chain h2 none (xs ++ p ∷ []) none
  chain =
      Chain-append h2 none xs (p ∷ []) none linked
        (ap (λ (o : Order). o.prev) own ∙ q.tail, ap (λ (o : Order). o.next) own, tt)

  total : add64 l.total_quantity (h2 p).remaining_quantity ≡ volume h2 (xs ++ p ∷ []) % 2 ^ 64
  total = omega (arith, volume-append h2 xs (p ∷ []), volume-same h h2 xs linked-same, q.total)

  frame : (x : ℕ) → Absent x xs → x ≢ p → h2 x ≡ h x
  unfolding h1 h2 relinked
  frame x absent ne =
      rw q.tail (set_next-ne xs none (some p) _ x (λ e. cc) absent ∙ write-ne h p x _ ne)

  head : new_end l.tail (some p) l.head ≡ first (xs ++ p ∷ []) none
  head = rw (q.tail, q.head) (new_head xs p)

  -- An order pushed on a queue that does not hold it becomes the last of the queue, the total grows
  -- by its quantity modulo 2^64, and no order changes but in the links of the last two.
  pub push_back-Pushed : Pushed l xs p h (push_back l p h)
  unfolding push_back h1 h2 relinked
  push_back-Pushed = record {
    queue = record {
      head = head;
      tail = sym (last-append none xs (p ∷ []));
      chain = chain;
      distinct = Distinct-snoc xs p q.distinct out;
      total = total;
    };
    price = refl;
    same = linked-same;
    frame = frame;
  }

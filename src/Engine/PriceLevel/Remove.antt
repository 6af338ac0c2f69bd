-- ===== src/Engine/PriceLevel/Remove.antt =====
-- `remove` takes an order out of the queue, wherever it stands.
use mathlib.Core.Path.{ap₂}
use sixchange.Base.{
  Distinct-join, ℕ, ◌%◌, ◌^◌, ◌≡◌, ◌≢◌, refl, sym, ap, subst, ◌∙◌, none, some, List, [], ◌∷◌, ◌++◌,
  arith, first, last, last-append, last-some, All, Absent, Distinct, All-append, All-left,
  All-right, All-map, eq_or_ne, inl, inr, Distinct-split, sub64, sub64_mod,
}
use sixchange.Engine.Order.{OrderPtr, Order, Slots, write, write_self, write-ne}
use sixchange.Engine.PriceLevel.{PriceLevel, set_next, set_prev, new_end, remove}
use sixchange.Engine.PriceLevel.Chain.{
  Chain, Chain-write, Chain-append, Chain-left, Chain-right, Chain-agree,
}
use sixchange.Engine.PriceLevel.Queue.{
  unlinked, SameOrders, volume, IsQueue, volume-append, volume-same, set_next-same, set_next-ne,
  set_prev-same, set_prev-ne, Chain-set_next, Chain-set_prev,
}

pub record Removed (l : PriceLevel) (xs : List ℕ) (p : ℕ) (ys : List ℕ) (h : Slots)
    (r : PriceLevel × Slots) : Type 0 where
  pub queue : IsQueue r.0 (xs ++ ys) r.1
  pub price : r.0.price ≡ l.price
  pub same : SameOrders h r.1
  pub cleared : r.1 p ≡ unlinked (h p)
  pub frame : (x : ℕ) → Absent x (xs ++ ys) → x ≢ p → r.1 x ≡ h x

-- The new ends, from the list.
first-without :
    (xs ys : List ℕ) (p : ℕ)
    → new_end (last none xs) (first ys none) (first (xs ++ p ∷ ys) none) ≡ first (xs ++ ys) none
unfolding new_end
first-without [] ys p = refl
first-without (x ∷ xs) ys p = rw ((last-some x xs).1, new_end)

last-without :
    (xs ys : List ℕ) (p : ℕ)
    → new_end (first ys none) (last none xs) (last none (xs ++ p ∷ ys)) ≡ last none (xs ++ ys)
unfolding new_end
last-without xs [] p = sym (last-append none xs [])
last-without xs (y ∷ ys) p = last-append none xs (p ∷ y ∷ ys) ∙ sym (last-append none xs (y ∷ ys))

-- The segment on each side of the order, once both neighbours are joined.
module _ (xs : List ℕ) (p : ℕ) (ys : List ℕ) (h : Slots) (d : Distinct (xs ++ p ∷ ys))
    (c : Chain h none (xs ++ p ∷ ys) none) where
  apart :
      Distinct xs
      × Absent p xs
      × Distinct ys
      × Absent p ys
      × All (λ x. Absent x ys) xs
      × All (λ y. Absent y xs) ys
  apart = Distinct-split xs p ys d

  h1 : Slots
  h1 = set_next (last none xs) (first ys none) h

  h2 : Slots
  h2 = set_prev (first ys none) (last none xs) h1

  prev-p : (h p).prev ≡ last none xs
  prev-p = (Chain-right h none xs (p ∷ ys) none c).0

  next-p : (h p).next ≡ first ys none
  next-p = (Chain-right h none xs (p ∷ ys) none c).1

  h1-ne : (x : ℕ) → Absent x xs → h1 x ≡ h x
  unfolding h1
  h1-ne x out = set_next-ne xs none (first ys none) h x (λ e. cc) out

  h2-ne : (x : ℕ) → Absent x ys → h2 x ≡ h1 x
  unfolding h2
  h2-ne x out = set_prev-ne ys (last none xs) h1 x out

  joined-same : SameOrders h h2
  unfolding h1 h2
  joined-same x =
      set_prev-same (first ys none) (last none xs) h1 x
      ∙ set_next-same (last none xs) (first ys none) h x

  own : h2 p ≡ h p
  own = h2-ne p apart.3 ∙ h1-ne p apart.1

  Chain-before : Chain h2 none xs (first ys none)
  unfolding h1 h2
  Chain-before =
      Chain-agree h1 h2 none xs (first ys none) (All-map (λ x out. h2-ne x out) xs apart.4) (
        Chain-set_next xs (first ys none) h (some p) apart.0 (Chain-left h none xs (p ∷ ys) none c))

  Chain-behind : Chain h2 (last none xs) ys none
  unfolding h1 h2
  Chain-behind = Chain-set_prev ys (last none xs) h1 (some p) none apart.2 (
      Chain-agree h h1 (some p) ys none (All-map (λ x out. h1-ne x out) ys apart.5)
        (Chain-right h none xs (p ∷ ys) none c).2)

  h3 : Slots
  h3 = write h2 p (unlinked (h2 p))

  chain : Chain h3 none (xs ++ ys) none
  unfolding h3
  chain =
      Chain-write h2 p _ none (xs ++ ys) none (All-append _ xs ys apart.1 apart.3)
        (Chain-append h2 none xs ys none Chain-before Chain-behind)

  cleared : h3 p ≡ unlinked (h p)
  unfolding h3
  cleared = write_self h2 p _ ∙ joined-same p

  same : SameOrders h h3
  unfolding h3
  same x = elim (eq_or_ne x p) [
    | inl e ↦ rw (e, write_self h2 p (unlinked (h2 p))) (joined-same p)
    | inr ne ↦ rw (write-ne h2 p x (unlinked (h2 p)) ne) (joined-same x)
  ]

  frame : (x : ℕ) → Absent x (xs ++ ys) → x ≢ p → h3 x ≡ h x
  unfolding h3
  frame x out ne =
      write-ne h2 p x _ ne ∙ h2-ne x (All-right _ xs ys out) ∙ h1-ne x (All-left _ xs ys out)

  remaining-volume :
      (t : ℕ)
      → t ≡ volume h (xs ++ p ∷ ys) % 2 ^ 64
      → sub64 t (h2 p).remaining_quantity ≡ volume h3 (xs ++ ys) % 2 ^ 64
  remaining-volume t e = sub64_mod t (h2 p).remaining_quantity _ (
      omega (
        arith,
        e,
        volume-append h xs (p ∷ ys),
        volume-append h xs ys,
        volume-same h h3 (xs ++ ys) same,
        ap (λ (o : Order). o.remaining_quantity) own,
      ))

-- `remove` with the pointers that it reads as arguments: those of the order at first, and those
-- after the first write.
splice : PriceLevel → ℕ → Slots → (prev next prev' next' : OrderPtr) → PriceLevel × Slots
splice l p h prev next prev' next' =
    let h2 = set_prev next' prev' (set_next prev next h) in
    (
      record l {
        head = new_end prev next l.head;
        tail = new_end next' prev' l.tail;
        total_quantity = sub64 l.total_quantity (h2 p).remaining_quantity;
      },
      write h2 p (unlinked (h2 p)),
    )

remove-splice :
    (l : PriceLevel) (p : ℕ) (h : Slots) (a b : OrderPtr)
    → (h p).prev ≡ a
    → (h p).next ≡ b
    → (set_next a b h p ≡ h p)
    → remove l p h ≡ splice l p h a b a b
unfolding remove splice
remove-splice l p h a b ea eb same =
    ap₂ (λ a' b'. splice l p h a' b' (set_next a' b' h p).prev (set_next a' b' h p).next) ea eb
    ∙ ap (λ (o : Order). splice l p h a b o.prev o.next) same
    ∙ ap₂ (splice l p h a b) ea eb

splice-Removed :
    (l : PriceLevel) (xs : List ℕ) (p : ℕ) (ys : List ℕ) (h : Slots)
    → IsQueue l (xs ++ p ∷ ys) h
    → Removed l xs p ys h
        (splice l p h (last none xs) (first ys none) (last none xs) (first ys none))
unfolding splice h1 h2 h3
splice-Removed l xs p ys h q = record {
  queue = record {
    head = rw q.head (first-without xs ys p);
    tail = rw q.tail (last-without xs ys p);
    chain = chain xs p ys h q.distinct q.chain;
    distinct = Distinct-join xs p ys q.distinct;
    total = remaining-volume xs p ys h q.distinct q.chain l.total_quantity q.total;
  };
  price = refl;
  same = same xs p ys h q.distinct q.chain;
  cleared = cleared xs p ys h q.distinct q.chain;
  frame = frame xs p ys h q.distinct q.chain;
}

-- Removing an order of the queue leaves the others in their order and with their contents, takes
-- its quantity off the total modulo 2^64, clears its links and relinks its neighbours only.
pub remove-Removed :
    (l : PriceLevel) (xs : List ℕ) (p : ℕ) (ys : List ℕ) (h : Slots)
    → IsQueue l (xs ++ p ∷ ys) h
    → Removed l xs p ys h (remove l p h)
unfolding set_next h1
remove-Removed l xs p ys h q =
    subst (Removed l xs p ys h)
      (sym (
        remove-splice l p h (last none xs) (first ys none) (prev-p xs p ys h q.distinct q.chain)
          (next-p xs p ys h q.distinct q.chain)
          (h1-ne xs p ys h q.distinct q.chain p (apart xs p ys h q.distinct q.chain).1)))
      (splice-Removed l xs p ys h q)

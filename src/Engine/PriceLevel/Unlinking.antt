-- ===== src/Engine/PriceLevel/Unlinking.antt =====
-- `remove` changes links only, whatever the links are.
use sixchange.Base.{ℕ, ◌∙◌, inl, inr, eq_or_ne}
use sixchange.Engine.Order.{Slots, write, write_self, write-ne}
use sixchange.Engine.PriceLevel.{PriceLevel, remove, set_next, set_prev}
use sixchange.Engine.PriceLevel.Queue.{unlinked, SameOrders, set_next-same, set_prev-same}

clear-SameOrders : (h : Slots) (p : ℕ) → SameOrders h (write h p (unlinked (h p)))
clear-SameOrders h p x = elim (eq_or_ne x p) [
  | inl e ↦ rw (e, write_self h p (unlinked (h p)))
  | inr ne ↦ rw (write-ne h p x (unlinked (h p)) ne)
]

pub remove-SameOrders : (l : PriceLevel) (p : ℕ) (h : Slots) → SameOrders h (remove l p h).1
unfolding remove
remove-SameOrders l p h x =
    let h1 = set_next (h p).prev (h p).next h in
    let h2 = set_prev (h1 p).next (h1 p).prev h1 in
    clear-SameOrders h2 p x
    ∙ set_prev-same (h1 p).next (h1 p).prev h1 x
    ∙ set_next-same (h p).prev (h p).next h x

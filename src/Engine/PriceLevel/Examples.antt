-- ===== src/Engine/PriceLevel/Examples.antt =====
-- Price levels at concrete inputs.
use sixchange.Base.{◌+◌, ◌≡◌, refl, [], ◌∷◌, arith}
use sixchange.Engine.Order.{empty_order, Slots, write}
use sixchange.Engine.PriceLevel.{PriceLevel, empty_level, push_back, remove}
use sixchange.Engine.PriceLevel.Queue.{IsQueue}
use sixchange.Engine.PriceLevel.PushBack.{Pushed, push_back-Pushed}
use sixchange.Engine.PriceLevel.Remove.{Removed, remove-Removed}

-- Orders whose quantity is ten more than their address.
abbrev sample : Slots
sample p = record empty_order { order_id = p; remaining_quantity = p + 10 }

-- Order 3, then order 7, then order 5.
abbrev one : PriceLevel × Slots
one = push_back empty_level 3 sample

abbrev two : PriceLevel × Slots
two = push_back one.0 7 one.1

abbrev three : PriceLevel × Slots
three = push_back two.0 5 two.1

empty_level-IsQueue : IsQueue empty_level [] sample
empty_level-IsQueue = record {
  head = refl;
  tail = refl;
  chain = tt;
  distinct = tt;
  total = omega arith;
}

one-IsQueue : IsQueue one.0 (3 ∷ []) one.1
one-IsQueue = (push_back-Pushed empty_level [] 3 sample empty_level-IsQueue tt).queue

push_back-Pushed_example : Pushed one.0 (3 ∷ []) 7 one.1 two
push_back-Pushed_example = push_back-Pushed one.0 (3 ∷ []) 7 one.1 one-IsQueue (omega arith)

three-IsQueue : IsQueue three.0 (3 ∷ 7 ∷ 5 ∷ []) three.1
three-IsQueue =
    (push_back-Pushed two.0 (3 ∷ 7 ∷ []) 5 two.1 push_back-Pushed_example.queue (omega arith)).queue

-- The order in the middle goes.
remove-Removed_example : Removed three.0 (3 ∷ []) 7 (5 ∷ []) three.1 (remove three.0 7 three.1)
remove-Removed_example = remove-Removed three.0 (3 ∷ []) 7 (5 ∷ []) three.1 three-IsQueue

total_of_three : three.0.total_quantity ≡ 45
unfolding push_back write
total_of_three = refl

total_without_7 : (remove three.0 7 three.1).0.total_quantity ≡ 28
unfolding push_back remove write
total_without_7 = refl

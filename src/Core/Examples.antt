-- ===== src/Core/Examples.antt =====
-- The dispatcher at a concrete input.
use sixchange.Base.{ℕ, ◌+◌, ◌*◌, ◌≡◌, ◌<◌, ◌≤◌, refl, ◌⊎◌, true, false, [], ◌∷◌, arith}
use sixchange.Core.Events.{EngineEvent, order_expired}
use sixchange.Core.Dispatcher.{
  EngineEventDispatcher, size, add_sink, on_engine_event, add_sink-on_engine_event,
}

abbrev expiry : EngineEvent
expiry = order_expired (record {
  seq = 1;
  order_id = 1;
  client_order_id = 1;
  client_id = 1;
  symbol_id = 0;
  expired_quantity = 5;
})

-- One sink of at most two, which doubles the number.
abbrev doubling : EngineEventDispatcher ℕ
doubling = record { capacity = 2; sinks = (λ event n. n * 2) ∷ [] }

add_sink-on_engine_event_example :
    ((size doubling < 2)
      × ((add_sink doubling (λ event n. n + 1)).1 ≡ true)
      × (size (add_sink doubling (λ event n. n + 1)).0 ≤ 2)
      × (on_engine_event (add_sink doubling (λ event n. n + 1)).0 expiry 5
          ≡ on_engine_event doubling expiry 5 + 1))
    ⊎ ((size doubling ≡ 2) × (add_sink doubling (λ event n. n + 1) ≡ (doubling, false)))
unfolding size
add_sink-on_engine_event_example =
    add_sink-on_engine_event doubling (λ event n. n + 1) expiry 5 (omega arith)

delivered_in_order : on_engine_event (add_sink doubling (λ event n. n + 1)).0 expiry 5 ≡ 11
unfolding on_engine_event add_sink
delivered_in_order = refl

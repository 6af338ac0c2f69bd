-- ===== src/Core/Dispatcher.antt =====
-- include/sixchange/core/EngineEventSink.h and EngineEventDispatcher.h. A sink is a callback with
-- a context: here a function on the state `S` that all contexts make up. The array of optional
-- sinks and its fill count are a list with at most `capacity` entries.
use sixchange.Base.{
  ℕ, ◌≡◌, ◌≤◌, ◌<◌, refl, ◌⊎◌, inl, inr, Bool-cases, Bool, true, false, List, [], ◌∷◌, ◌++◌, arith,
  ◌==◌, if◌then◌else◌, length, length-append,
}
use sixchange.Core.Events.{EngineEvent}

module _ (S : Type 0) where
  abbrev pub EngineEventSink : Type 0
  EngineEventSink = EngineEvent → S → S

  pub record EngineEventDispatcher : Type 0 where
    pub capacity : ℕ
    pub sinks : List (EngineEvent → S → S)

module _ {S : Type 0} where
  pub emit : EngineEventSink S → EngineEvent → S → S
  emit sink event s = sink event s

  unfoldable pub size : EngineEventDispatcher S → ℕ
  size d = length d.sinks

  unfoldable pub add_sink :
      EngineEventDispatcher S → EngineEventSink S → EngineEventDispatcher S × Bool
  unfolding size
  add_sink d sink =
      if size d == d.capacity then (d, false) else (record d { sinks = d.sinks ++ sink ∷ [] }, true)

  emit_all : List (EngineEvent → S → S) → EngineEvent → S → S
  unfolding emit
  emit_all [] event s = s
  emit_all (sink ∷ sinks) event s = emit_all sinks event (emit sink event s)

  unfoldable pub on_engine_event : EngineEventDispatcher S → EngineEvent → S → S
  unfolding emit_all
  on_engine_event d event s = emit_all d.sinks event s

  emit_all-append :
      (ks : List (EngineEvent → S → S)) (k : EngineEvent → S → S) (event : EngineEvent) (s : S)
      → emit_all (ks ++ k ∷ []) event s ≡ k event (emit_all ks event s)
  unfolding emit_all
  emit_all-append [] k event s = refl
  emit_all-append (j ∷ ks) k event s = emit_all-append ks k event (j event s)

  -- A dispatcher within its capacity either has room, and then registers the sink, stays within its
  -- capacity, and delivers each event to the new sink after all the old ones; or it is full, and then
  -- refuses the sink and stays as it was.
  pub add_sink-on_engine_event :
      (d : EngineEventDispatcher S) (sink : EngineEventSink S) (event : EngineEvent) (s : S)
      → size d ≤ d.capacity
      → ((size d < d.capacity)
          × ((add_sink d sink).1 ≡ true)
          × (size (add_sink d sink).0 ≤ d.capacity)
          × (on_engine_event (add_sink d sink).0 event s ≡ sink event (on_engine_event d event s)))
        ⊎ ((size d ≡ d.capacity) × (add_sink d sink ≡ (d, false)))
  unfolding add_sink on_engine_event
  add_sink-on_engine_event d sink event s fits = elim (Bool-cases (size d == d.capacity)) [
    | inl full ↦ inr (ground arith, rw full)
    | inr room ↦ inl (
      ground (arith),
      rw room,
      rw room (ground (arith, length-append d.sinks (sink ∷ []))),
      rw room (emit_all-append d.sinks sink event s),
    )
  ]

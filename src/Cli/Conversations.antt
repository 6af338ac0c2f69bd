-- ===== src/Cli/Conversations.antt =====
-- What the program answers to the lines of a session, line by line.
use sixchange.Base.{
  ℕ, ◌≡◌, ◌≢◌, refl, sym, ◌⊎◌, inl, inr, true, false, none, some, List, [], ◌∷◌, map, Bytes, codes,
  In, add64, value, unexpected, Bool-cases, ◌==◌, ==→eq, not_==→ne,
}
use sixchange.Core.Enums.{RejectReason}
use sixchange.Engine.MatchingEngine.{MatchingEngine}
use sixchange.Engine.MatchingEngine.Reasons.{IsReason, IsSupported, IsValid}
use sixchange.Protocol.Messages.{
  NewOrderRequest, OutboundMessage, OrderRejected, new_order, accepted, rejected,
}
use sixchange.Protocol.TextCodec.{decode}
use sixchange.Gateway.ClientOrders.{ClientOrders, find, contains}
use sixchange.Gateway.OrderGateway.Answering.{order_of}

abbrev pub refusal : (client_order_id : ℕ) → RejectReason → OutboundMessage
refusal id reason = rejected (record { client_order_id = some id; reason = reason })

-- The reply to a well-formed order. `known` holds the client order ids of the accepted orders and
-- `e` is the engine, both before the order; `known'` and `e'` are what they are after it.
pub data Reply (known : List ℕ) (e : MatchingEngine) (r : NewOrderRequest)
    : OutboundMessage → (known' : List ℕ) → (e' : MatchingEngine) → Type 0 where
  duplicate :
      In r.client_order_id known
      → Reply known e r (refusal r.client_order_id RejectReason.duplicate_client_order_id) known e
  unknown_symbol :
      ¬ In r.client_order_id known
      → r.symbol ≢ codes "AAPL"
      → Reply known e r (refusal r.client_order_id RejectReason.unknown_symbol) known e
  engine_refused :
      ¬ In r.client_order_id known
      → r.symbol ≡ codes "AAPL"
      → (client_id seq : ℕ) (reason : RejectReason)
      → IsReason e.order_book (order_of client_id seq r) e.next_order_id reason
      → (e' : MatchingEngine) → e'.next_order_id ≡ e.next_order_id
      → Reply known e r (refusal r.client_order_id reason) known e'
  engine_accepted :
      ¬ In r.client_order_id known
      → r.symbol ≡ codes "AAPL"
      → (client_id seq : ℕ) → IsSupported (order_of client_id seq r)
      → IsValid e.order_book (order_of client_id seq r)
      → (e' : MatchingEngine) → e'.next_order_id ≡ add64 e.next_order_id 1
      → Reply known e r
          (accepted (record { client_order_id = r.client_order_id; order_id = e.next_order_id }))
          (r.client_order_id ∷ known)
          e'

-- The replies to some lines: the first to the first line, and so on.
pub data Conversation
    : (known : List ℕ) → MatchingEngine → List Bytes → List OutboundMessage → Type 0 where
  finished : {known : List ℕ} {e : MatchingEngine} → Conversation known e [] []
  malformed :
      {known : List ℕ} {e : MatchingEngine} {line : Bytes} {lines : List Bytes}
      {replies : List OutboundMessage} (rejection : OrderRejected)
      → decode line ≡ unexpected rejection
      → Conversation known e lines replies
      → Conversation known e (line ∷ lines) (rejected rejection ∷ replies)
  ordered :
      {known known' : List ℕ} {e e' : MatchingEngine} {line : Bytes} {lines : List Bytes}
      {reply : OutboundMessage} {replies : List OutboundMessage} (r : NewOrderRequest)
      → decode line ≡ value (new_order r)
      → Reply known e r reply known' e'
      → Conversation known' e' lines replies
      → Conversation known e (line ∷ lines) (reply ∷ replies)

-- The client order ids of the registered orders.
abbrev pub keys : ClientOrders → List ℕ
keys m = map (λ entry. entry.0) m

-- Whether an id is registered.
find-In :
    (m : ClientOrders) (id : ℕ)
    → ((order_id : ℕ) × (find m id ≡ some order_id) × In id (keys m))
      ⊎ ((find m id ≡ none) × (¬ In id (keys m)))
unfolding find
find-In [] id = inr (refl, λ h. h)
find-In ((k, order_id) ∷ m) id = elim (Bool-cases (k == id)) [
  | inl same ↦ inl (order_id, rw same refl, inl (sym (==→eq k id same)))
  | inr other ↦ elim (find-In m id) [
    | inl (found, known, there) ↦ inl (found, rw other known, inr there)
    | inr (unknown, absent) ↦ inr (
      rw other unknown,
      λ h. elim h [ inl e ↦ not_==→ne k id other (sym e) | inr there ↦ absent there ],
    )
  ]
]

pub contains→In : (m : ClientOrders) (id : ℕ) → contains m id ≡ true → In id (keys m)
unfolding contains
contains→In m id = elim (find-In m id) [
  | inl (found, known, there) ↦ λ e. there
  | inr (unknown, absent) ↦ rw (contains, unknown) (λ e. cc)
]

pub contains→absent : (m : ClientOrders) (id : ℕ) → contains m id ≡ false → ¬ In id (keys m)
unfolding contains
contains→absent m id = elim (find-In m id) [
  | inl (found, known, there) ↦ rw (contains, known) (λ e. cc)
  | inr (unknown, absent) ↦ λ e. absent
]

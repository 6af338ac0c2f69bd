-- ===== src/Protocol/TextCodec/Grammar.antt =====
-- The grammar of the order entry protocol, on the words of a line: README.md.
use sixchange.Base.{◌<◌, ◌≡◌, List, [], ◌∷◌, Bytes, codes, IsNumeral}
use sixchange.Protocol.Messages.{
  InboundMessage, NewOrderRequest, CancelOrderRequest, new_order, cancel_order,
}
use sixchange.Protocol.Parsing.{side_text, order_type_text, time_in_force_text}

-- The words of a new order and of a cancel request, as the README gives them.
pub record SpellsNewOrder (ws : List Bytes) (r : NewOrderRequest) : Type 0 where
  pub id : Bytes
  pub price : Bytes
  pub quantity : Bytes
  pub line :
      ws
      ≡ codes "N"
        ∷ id
        ∷ r.symbol
        ∷ side_text r.side
        ∷ order_type_text r.order_type
        ∷ time_in_force_text r.tif
        ∷ price
        ∷ quantity
        ∷ []
  pub id_is : IsNumeral id r.client_order_id
  pub price_is : IsNumeral price r.price
  pub quantity_is : IsNumeral quantity r.quantity
  pub id_positive : 0 < r.client_order_id
  pub price_positive : 0 < r.price
  pub quantity_positive : 0 < r.quantity

pub record SpellsCancel (ws : List Bytes) (r : CancelOrderRequest) : Type 0 where
  pub id : Bytes
  pub line : ws ≡ codes "C" ∷ id ∷ r.symbol ∷ []
  pub id_is : IsNumeral id r.client_order_id
  pub id_positive : 0 < r.client_order_id

abbrev pub Spells : List Bytes → InboundMessage → Type 0
Spells ws (new_order r) = SpellsNewOrder ws r
Spells ws (cancel_order r) = SpellsCancel ws r

-- ===== src/Core/Types.antt =====
-- include/sixchange/core/Types.h: the integer types, each a number below its modulus.
use sixchange.Base.{ℕ}

-- 64-bit: sequence numbers, order and trade ids, client order ids, prices, quantities.
abbrev pub SequenceNumber : Type 0
SequenceNumber = ℕ

abbrev pub OrderId : Type 0
OrderId = ℕ

abbrev pub TradeId : Type 0
TradeId = ℕ

abbrev pub ClientOrderId : Type 0
ClientOrderId = ℕ

abbrev pub Price : Type 0
Price = ℕ

abbrev pub Quantity : Type 0
Quantity = ℕ

-- 32-bit.
abbrev pub ClientId : Type 0
ClientId = ℕ

abbrev pub SymbolId : Type 0
SymbolId = ℕ

-- ===== src/Core/Enums.antt =====
-- include/sixchange/core/Enums.h.

pub data Side : Type 0 where
  buy sell : Side

pub data OrderType : Type 0 where
  limit market : OrderType

pub data TimeInForce : Type 0 where
  gfd ioc fok : TimeInForce

pub data CommandType : Type 0 where
  new_order cancel_order replace_order : CommandType

pub data RejectReason : Type 0 where
  none : RejectReason
  invalid_message : RejectReason
  unknown_symbol : RejectReason
  invalid_price : RejectReason
  invalid_quantity : RejectReason
  duplicate_client_order_id : RejectReason
  unknown_order : RejectReason
  not_order_owner : RejectReason
  unsupported_order_type : RejectReason
  unsupported_time_in_force : RejectReason
  gateway_error : RejectReason
  capacity_exhausted : RejectReason
  matching_engine_error : RejectReason

pub data LiquidityFlag : Type 0 where
  none maker taker : LiquidityFlag

-- ===== src/Core/EnumNames.antt =====
-- src/core/EnumNames.h. An enum here has no value outside its constructors, so the code's
-- "UNKNOWN" for such a value has no counterpart.
use Prim.Native.String.{String}
use sixchange.Core.Enums.{
  Side, OrderType, TimeInForce, CommandType, RejectReason, buy, sell, limit, market, gfd, ioc, fok,
}

pub side : Side → String
side buy = "BUY"
side sell = "SELL"

pub order_type : OrderType → String
order_type limit = "LIMIT"
order_type market = "MARKET"

pub time_in_force : TimeInForce → String
time_in_force gfd = "GFD"
time_in_force ioc = "IOC"
time_in_force fok = "FOK"

pub command_type : CommandType → String
command_type CommandType.new_order = "NEW_ORDER"
command_type CommandType.cancel_order = "CANCEL_ORDER"
command_type CommandType.replace_order = "REPLACE_ORDER"

unfoldable pub reject_reason : RejectReason → String
reject_reason RejectReason.none = "NONE"
reject_reason RejectReason.invalid_message = "INVALID_MESSAGE"
reject_reason RejectReason.unknown_symbol = "UNKNOWN_SYMBOL"
reject_reason RejectReason.invalid_price = "INVALID_PRICE"
reject_reason RejectReason.invalid_quantity = "INVALID_QUANTITY"
reject_reason RejectReason.duplicate_client_order_id = "DUPLICATE_CLIENT_ORDER_ID"
reject_reason RejectReason.unknown_order = "UNKNOWN_ORDER"
reject_reason RejectReason.not_order_owner = "NOT_ORDER_OWNER"
reject_reason RejectReason.unsupported_order_type = "UNSUPPORTED_ORDER_TYPE"
reject_reason RejectReason.unsupported_time_in_force = "UNSUPPORTED_TIME_IN_FORCE"
reject_reason RejectReason.gateway_error = "GATEWAY_ERROR"
reject_reason RejectReason.capacity_exhausted = "CAPACITY_EXHAUSTED"
reject_reason RejectReason.matching_engine_error = "MATCHING_ENGINE_ERROR"

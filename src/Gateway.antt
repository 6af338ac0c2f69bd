-- ===== src/Gateway.antt =====
-- src/gateway.
pub mod ClientOrders
pub mod OrderGateway

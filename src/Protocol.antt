-- ===== src/Protocol.antt =====
-- The messages between the clients and the broker: protocol/.
pub mod Memory
pub mod Requests
pub mod Responses
pub mod RoundTrip
mod Witnesses

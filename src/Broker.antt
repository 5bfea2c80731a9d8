-- ===== src/Broker.antt =====
-- internal/broker: the serialized Modbus broker.
mod Examples
pub mod Backoff
pub mod State
pub mod Execute
pub mod Run
pub mod Calls

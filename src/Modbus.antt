-- ===== src/Modbus.antt =====
-- internal/modbus: framing, checksums and the exchange of one request.
mod Examples
pub mod Xor
pub mod Crc
pub mod Conn
pub mod Error
pub mod Rtu
pub mod Tcp

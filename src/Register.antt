-- ===== src/Register.antt =====
-- internal/register: the Sofar G3 register map, batch plans and fault decoding.
mod Examples
pub mod Probe
pub mod Enums
pub mod ConfigEnums
pub mod System
pub mod Units
pub mod Configuration
pub mod Batch
pub mod Battery
pub mod Format
pub mod Generated
pub mod FaultBit
pub mod Fault

-- ===== src/Register/FaultBit.antt =====
-- internal/register/fault.go: one bit of a fault register and its description.
use sofar_hyd_diag.Prelude.{ℕ, String}

pub record FaultBit : Type 0 where
  pub addr : ℕ  -- uint16
  pub bit : ℕ  -- uint8
  pub desc : String

abbrev pub fault_bit : ℕ → ℕ → String → FaultBit
fault_bit addr bit desc = record { addr = addr; bit = bit; desc = desc }

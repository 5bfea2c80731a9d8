-- ===== src/Register/Fault/Storage.antt =====
-- internal/register/fault.go: fault descriptions, fault registers 17 to 30.
use sofar_hyd_diag.Prelude.{List, [], ◌∷◌}
use sofar_hyd_diag.Register.FaultBit.{FaultBit, fault_bit}

unfoldable pub fault_17_bits : List FaultBit
fault_17_bits = []

unfoldable pub fault_18_bits : List FaultBit
fault_18_bits = []

unfoldable pub fault_19_bits : List FaultBit
fault_19_bits = []

unfoldable pub fault_20_bits : List FaultBit
fault_20_bits =
    (fault_bit 0x0433 0 "Control unit over temperature warning")
    ∷ (fault_bit 0x0433 1 "Control unit over temperature protection")
    ∷ (fault_bit 0x0433 2 "Control unit low temperature warning")
    ∷ (fault_bit 0x0433 3 "Temperature sensor fault")
    ∷ (fault_bit 0x0433 4
        "Abnormal DC port temperature (including temperature and NTC abnormalities)")
    ∷ (fault_bit 0x0433 5
        "Abnormal AC port temperature (including temperature and NTC abnormalities)")
    ∷ (fault_bit 0x0433 8 "Module 4 temperature protection")
    ∷ (fault_bit 0x0433 9 "Module 5 temperature protection")
    ∷ (fault_bit 0x0433 10 "Module 6 temperature protection")
    ∷ []

unfoldable pub fault_21_bits : List FaultBit
fault_21_bits =
    (fault_bit 0x0434 0 "Grid phase sequence error")
    ∷ (fault_bit 0x0434 1 "Phase line to ground failure")
    ∷ (fault_bit 0x0434 2 "Anti-short-circuit protection")
    ∷ (fault_bit 0x0434 3 "Anti-short-circuit device fault")
    ∷ (fault_bit 0x0434 4 "DC relay fault")
    ∷ (fault_bit 0x0434 5 "Anti-short-circuit temperature error")
    ∷ (fault_bit 0x0434 6 "Module temperature low protection")
    ∷ (fault_bit 0x0434 7 "AC start timeout")
    ∷ (fault_bit 0x0434 8 "Over modulation")
    ∷ (fault_bit 0x0434 9 "Device ID mismatch")
    ∷ (fault_bit 0x0434 10 "Internal communicate fault")
    ∷ (fault_bit 0x0434 11 "Carrier synchronization signal fault")
    ∷ (fault_bit 0x0434 12 "Bus short circuit protection")
    ∷ (fault_bit 0x0434 13 "Boost short circuit fault")
    ∷ (fault_bit 0x0434 14 "PV+ ground short circuit fault")
    ∷ []

unfoldable pub fault_22_bits : List FaultBit
fault_22_bits = []

unfoldable pub fault_23_bits : List FaultBit
fault_23_bits = []

unfoldable pub fault_24_bits : List FaultBit
fault_24_bits =
    (fault_bit 0x0437 8 "Inverter hardware MOS tube fault")
    ∷ (fault_bit 0x0437 9 "EPS hardware output over-current protection")
    ∷ (fault_bit 0x0437 10 "AFCI self-checking error")
    ∷ (fault_bit 0x0437 11 "Load short circuit protection")
    ∷ (fault_bit 0x0437 12 "DC switch 1 trip")
    ∷ (fault_bit 0x0437 13 "DC switch 2 trip")
    ∷ (fault_bit 0x0437 14 "DC switch 3 trip")
    ∷ (fault_bit 0x0437 15 "DC switch 4 trip")
    ∷ []

unfoldable pub fault_25_bits : List FaultBit
fault_25_bits =
    (fault_bit 0x0438 0 "Hardware AD sampling bias error") ∷ (fault_bit 0x0438 1 "Fan 8 fault") ∷ []

unfoldable pub fault_26_bits : List FaultBit
fault_26_bits =
    (fault_bit 0x0439 0 "Arc failure 0")
    ∷ (fault_bit 0x0439 1 "Arc failure 1")
    ∷ (fault_bit 0x0439 2 "Arc failure 2")
    ∷ (fault_bit 0x0439 3 "Arc failure 3")
    ∷ (fault_bit 0x0439 4 "Arc failure 4")
    ∷ (fault_bit 0x0439 5 "Arc failure 5")
    ∷ (fault_bit 0x0439 6 "Arc failure 6")
    ∷ (fault_bit 0x0439 7 "Arc failure 7")
    ∷ (fault_bit 0x0439 8 "Arc failure 8")
    ∷ (fault_bit 0x0439 9 "Arc failure 9")
    ∷ (fault_bit 0x0439 10 "Arc failure 10")
    ∷ (fault_bit 0x0439 11 "Arc failure 11")
    ∷ (fault_bit 0x0439 12 "Arc failure 12")
    ∷ (fault_bit 0x0439 13 "Arc failure 13")
    ∷ (fault_bit 0x0439 14 "Arc failure 14")
    ∷ (fault_bit 0x0439 15 "Arc failure 15")
    ∷ []

unfoldable pub fault_27_bits : List FaultBit
fault_27_bits =
    (fault_bit 0x043A 0 "Arc failure 16")
    ∷ (fault_bit 0x043A 1 "Arc failure 17")
    ∷ (fault_bit 0x043A 2 "Arc failure 18")
    ∷ (fault_bit 0x043A 3 "Arc failure 19")
    ∷ (fault_bit 0x043A 4 "Arc failure 20")
    ∷ (fault_bit 0x043A 5 "Arc failure 21")
    ∷ (fault_bit 0x043A 6 "Arc failure 22")
    ∷ (fault_bit 0x043A 7 "Arc failure 23")
    ∷ (fault_bit 0x043A 8 "Arc failure 24")
    ∷ (fault_bit 0x043A 9 "Arc failure 25")
    ∷ (fault_bit 0x043A 10 "Arc failure 26")
    ∷ (fault_bit 0x043A 11 "Arc failure 27")
    ∷ (fault_bit 0x043A 12 "Arc failure 28")
    ∷ (fault_bit 0x043A 13 "Arc failure 29")
    ∷ (fault_bit 0x043A 14 "Arc failure 30")
    ∷ (fault_bit 0x043A 15 "Arc failure 31")
    ∷ []

unfoldable pub fault_28_bits : List FaultBit
fault_28_bits =
    (fault_bit 0x043B 0 "AFCI 1 communication fault")
    ∷ (fault_bit 0x043B 1 "AFCI 2 communication fault")
    ∷ (fault_bit 0x043B 8 "Modify over voltage protection")
    ∷ (fault_bit 0x043B 9 "ARM_DSP protocol version inconsistent")
    ∷ (fault_bit 0x043B 10 "ARM_AFCI protocol version inconsistent")
    ∷ (fault_bit 0x043B 11 "ARM_DCDC protocol version inconsistent")
    ∷ []

unfoldable pub fault_29_bits : List FaultBit
fault_29_bits =
    (fault_bit 0x043C 0 "The ground zero voltage is too high")
    ∷ (fault_bit 0x043C 1 "PV branch software over-current 2(disabled by default)")
    ∷ (fault_bit 0x043C 2 "N-line open circuit fault")
    ∷ (fault_bit 0x043C 3 "Grid frequency change protection")
    ∷ (fault_bit 0x043C 4 "Phase-loss failure")
    ∷ (fault_bit 0x043C 5 "PV branch software current regurgitation")
    ∷ (fault_bit 0x043C 6 "Inverter voltage sampling error")
    ∷ (fault_bit 0x043C 7 "Inverter EPS sampling failure fault")
    ∷ (fault_bit 0x043C 8 "Bus voltage consistency error")
    ∷ (fault_bit 0x043C 9 "Bus current sampling error")
    ∷ (fault_bit 0x043C 10 "Parallel off grid start synchronization fault")
    ∷ (fault_bit 0x043C 11 "Primary hardware over-current protection")
    ∷ (fault_bit 0x043C 12 "Off-grid prohibited discharge failure")
    ∷ (fault_bit 0x043C 13 "Live wire and ground wire short circuit fault")
    ∷ (fault_bit 0x043C 14 "Permanent fault of live wire and ground wire short circuit")
    ∷ []

unfoldable pub fault_30_bits : List FaultBit
fault_30_bits =
    (fault_bit 0x043D 0 "DCDC Fault")
    ∷ (fault_bit 0x043D 1 "BCU Fault")
    ∷ (fault_bit 0x043D 2 "BMU Fault")
    ∷ (fault_bit 0x043D 3 "PID Fault")
    ∷ (fault_bit 0x043D 8 "Discharge Mos fault")
    ∷ (fault_bit 0x043D 9 "Charge Mos fault")
    ∷ (fault_bit 0x043D 10 "Battery NTC fault")
    ∷ (fault_bit 0x043D 11 "Cell fault")
    ∷ (fault_bit 0x043D 12 "Cell voltage sampling fault")
    ∷ (fault_bit 0x043D 13 "Storage fault")
    ∷ []

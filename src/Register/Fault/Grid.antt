-- ===== src/Register/Fault/Grid.antt =====
-- internal/register/fault.go: fault descriptions, fault registers 1 to 8.
use sofar_hyd_diag.Prelude.{List, [], ◌∷◌}
use sofar_hyd_diag.Register.FaultBit.{FaultBit, fault_bit}

unfoldable pub fault_1_bits : List FaultBit
fault_1_bits =
    (fault_bit 0x0405 0 "Grid over-voltage")
    ∷ (fault_bit 0x0405 1 "Grid under-voltage")
    ∷ (fault_bit 0x0405 2 "Grid over-frequency")
    ∷ (fault_bit 0x0405 3 "Grid under-frequency")
    ∷ (fault_bit 0x0405 4 "Leakage current faults")
    ∷ (fault_bit 0x0405 5 "High penetration error")
    ∷ (fault_bit 0x0405 6 "Low penetration error")
    ∷ (fault_bit 0x0405 7 "Island error")
    ∷ (fault_bit 0x0405 8 "Grid instantaneous value over-voltage 1")
    ∷ (fault_bit 0x0405 9 "Grid instantaneous value over-voltage2")
    ∷ (fault_bit 0x0405 10 "Grid line voltage error")
    ∷ (fault_bit 0x0405 11 "Inverter voltage error")
    ∷ (fault_bit 0x0405 12 "Anti-backflow overload")
    ∷ (fault_bit 0x0405 13 "Grid voltage unbalance")
    ∷ (fault_bit 0x0405 14 "Inverter transient over-voltage")
    ∷ (fault_bit 0x0405 15 "Sudden grid phase change")
    ∷ []

unfoldable pub fault_2_bits : List FaultBit
fault_2_bits =
    (fault_bit 0x0406 0 "Grid current sampling error")
    ∷ (fault_bit 0x0406 1 "DCI sampling error(AC)")
    ∷ (fault_bit 0x0406 2 "Network voltage sampling error(DC)")
    ∷ (fault_bit 0x0406 3 "Network voltage sampling error(AC)")
    ∷ (fault_bit 0x0406 4 "GFCI sampling error(DC)")
    ∷ (fault_bit 0x0406 5 "GFCI sampling error(AC)")
    ∷ (fault_bit 0x0406 6 "DCV sampling error")
    ∷ (fault_bit 0x0406 7 "Input current sampling error")
    ∷ (fault_bit 0x0406 8 "DCI sampling error(DC)")
    ∷ (fault_bit 0x0406 9 "Branch current sampling error")
    ∷ (fault_bit 0x0406 10 "PV low impedance to ground")
    ∷ (fault_bit 0x0406 11 "PID abnormal output")
    ∷ (fault_bit 0x0406 12 "Leakage current consistency error")
    ∷ (fault_bit 0x0406 13 "Network voltage consistency error")
    ∷ (fault_bit 0x0406 14 "DCI consistency error")
    ∷ (fault_bit 0x0406 15 "Neutral ground fault")
    ∷ []

unfoldable pub fault_3_bits : List FaultBit
fault_3_bits =
    (fault_bit 0x0407 0 "SPI communication error(DC)")
    ∷ (fault_bit 0x0407 1 "SPI communication error(AC)")
    ∷ (fault_bit 0x0407 2 "Chip error(DC)")
    ∷ (fault_bit 0x0407 3 "Chip error(AC)")
    ∷ (fault_bit 0x0407 4 "Auxiliary power error")
    ∷ (fault_bit 0x0407 5 "Inverter soft start failure")
    ∷ (fault_bit 0x0407 6 "Arc shutdown protection")
    ∷ (fault_bit 0x0407 7 "Weak light detection failure")
    ∷ (fault_bit 0x0407 8 "Relay detection failure")
    ∷ (fault_bit 0x0407 9 "Low insulation impedance")
    ∷ (fault_bit 0x0407 10 "Grounding error")
    ∷ (fault_bit 0x0407 11 "Wrong input mode setting")
    ∷ (fault_bit 0x0407 12 "CT error")
    ∷ (fault_bit 0x0407 13 "Input reversal error")
    ∷ (fault_bit 0x0407 14 "Parallel error")
    ∷ (fault_bit 0x0407 15 "Serial number error")
    ∷ []

unfoldable pub fault_4_bits : List FaultBit
fault_4_bits =
    (fault_bit 0x0408 0 "Battery temperature protection")
    ∷ (fault_bit 0x0408 1 "Radiator 1 temperature protection")
    ∷ (fault_bit 0x0408 2 "Radiator 2 temperature protection")
    ∷ (fault_bit 0x0408 3 "Radiator 3 temperature protection")
    ∷ (fault_bit 0x0408 4 "Radiator 4 temperature protection")
    ∷ (fault_bit 0x0408 5 "Radiator 5 temperature protection")
    ∷ (fault_bit 0x0408 6 "Radiator 6 temperature protection")
    ∷ (fault_bit 0x0408 7 "NTC error")
    ∷ (fault_bit 0x0408 8 "Ambient temperature 1 protection")
    ∷ (fault_bit 0x0408 9 "Ambient temperature 2 protection")
    ∷ (fault_bit 0x0408 10 "Module 1 temperature protection")
    ∷ (fault_bit 0x0408 11 "Module 2 temperature protection")
    ∷ (fault_bit 0x0408 12 "Module 3 temperature protection")
    ∷ (fault_bit 0x0408 13 "Module temperature difference too large")
    ∷ []

unfoldable pub fault_5_bits : List FaultBit
fault_5_bits =
    (fault_bit 0x0409 0 "Bus-bar valid value unbalanced")
    ∷ (fault_bit 0x0409 1 "Bus-bar instantaneous value unbalance")
    ∷ (fault_bit 0x0409 2 "Bus-bar under-voltage during grid connection")
    ∷ (fault_bit 0x0409 3 "Bus-bar low voltage")
    ∷ (fault_bit 0x0409 4 "PV over-voltage")
    ∷ (fault_bit 0x0409 5 "Battery over-voltage")
    ∷ (fault_bit 0x0409 6 "LLC-Bus over-voltage protection")
    ∷ (fault_bit 0x0409 7 "Bus-bar Rms software over-voltage")
    ∷ (fault_bit 0x0409 8 "Bus-bar transient software over-voltage")
    ∷ (fault_bit 0x0409 9 "Fly-span capacitor over-voltage protection")
    ∷ (fault_bit 0x0409 10 "Fly-span capacitor under-voltage protection")
    ∷ (fault_bit 0x0409 11 "PV under-voltage")
    ∷ []

unfoldable pub fault_6_bits : List FaultBit
fault_6_bits =
    (fault_bit 0x040A 0 "Battery over-current software protection")
    ∷ (fault_bit 0x040A 1 "DCI over-current protection")
    ∷ (fault_bit 0x040A 2 "Output transient current protection")
    ∷ (fault_bit 0x040A 3 "BckBst software over-current")
    ∷ (fault_bit 0x040A 4 "Inverter Rms current protection")
    ∷ (fault_bit 0x040A 5 "PV transient software over-current")
    ∷ (fault_bit 0x040A 6 "PV parallel uneven current")
    ∷ (fault_bit 0x040A 7 "Output current unbalance")
    ∷ (fault_bit 0x040A 8 "PV software over-current protection")
    ∷ (fault_bit 0x040A 9 "Balanced circuit over-current protection")
    ∷ (fault_bit 0x040A 10 "Resonance protection")
    ∷ (fault_bit 0x040A 11 "Software wave-by-wave current limit protection")
    ∷ (fault_bit 0x040A 12 "PV branch software over-current 1(enabled by default)")
    ∷ (fault_bit 0x040A 13 "Primary DC charge and discharge over current protection")
    ∷ (fault_bit 0x040A 14 "Software BUS over-current protection")
    ∷ (fault_bit 0x040A 15 "EPS short circuit protection")
    ∷ []

unfoldable pub fault_7_bits : List FaultBit
fault_7_bits =
    (fault_bit 0x040B 0 "LLC bus-bar hardware over-voltage")
    ∷ (fault_bit 0x040B 1 "Inverter bus hardware over-voltage")
    ∷ (fault_bit 0x040B 2 "BckBst hardware over-current")
    ∷ (fault_bit 0x040B 3 "Battery hardware over-current")
    ∷ (fault_bit 0x040B 4 "Primary DC hardware GaN tube error")
    ∷ (fault_bit 0x040B 5 "PV hardware over-current")
    ∷ (fault_bit 0x040B 6 "AC output hardware over-current")
    ∷ (fault_bit 0x040B 7 "Hardware differential over-current")
    ∷ (fault_bit 0x040B 8 "Meter communication error")
    ∷ (fault_bit 0x040B 9 "Serial number model error")
    ∷ (fault_bit 0x040B 10 "Hardware version mismatch")
    ∷ (fault_bit 0x040B 11 "Generator startup failure")
    ∷ (fault_bit 0x040B 12 "Generator overload protection")
    ∷ (fault_bit 0x040B 13 "Overload protection 1")
    ∷ (fault_bit 0x040B 14 "Overload protection 2")
    ∷ (fault_bit 0x040B 15 "Overload protection 3")
    ∷ []

unfoldable pub fault_8_bits : List FaultBit
fault_8_bits =
    (fault_bit 0x040C 0 "Over-temperature load-down")
    ∷ (fault_bit 0x040C 1 "Frequency load-down")
    ∷ (fault_bit 0x040C 2 "Frequency loading")
    ∷ (fault_bit 0x040C 3 "Voltage load-down")
    ∷ (fault_bit 0x040C 4 "Voltage loading")
    ∷ (fault_bit 0x040C 5 "Low temperature load-down")
    ∷ (fault_bit 0x040C 8 "Lightning Protection Fault(DC)")
    ∷ (fault_bit 0x040C 9 "Lightning Protection Fault(AC)")
    ∷ (fault_bit 0x040C 10 "Output short circuit error")
    ∷ (fault_bit 0x040C 11 "Low battery power")
    ∷ (fault_bit 0x040C 12 "Battery prohibit discharge alarm")
    ∷ (fault_bit 0x040C 15 "Battery input reverse protection")
    ∷ []

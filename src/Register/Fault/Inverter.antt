-- ===== src/Register/Fault/Inverter.antt =====
-- internal/register/fault.go: fault descriptions, fault registers 9 to 16.
use sofar_hyd_diag.Prelude.{List, [], ◌∷◌}
use sofar_hyd_diag.Register.FaultBit.{FaultBit, fault_bit}

unfoldable pub fault_9_bits : List FaultBit
fault_9_bits =
    (fault_bit 0x040D 0 "AC hardware over-current fault")
    ∷ (fault_bit 0x040D 1 "Bus over-voltage fault")
    ∷ (fault_bit 0x040D 2 "Bus hardware over-voltage fault")
    ∷ (fault_bit 0x040D 3 "PV uneven flow fault")
    ∷ (fault_bit 0x040D 4 "EPS battery over-current fault")
    ∷ (fault_bit 0x040D 5 "Output transient over-current fault")
    ∷ (fault_bit 0x040D 6 "AC current unbalance fault")
    ∷ (fault_bit 0x040D 7 "Inverter soft start failure fault")
    ∷ (fault_bit 0x040D 8 "Input mode setting fault")
    ∷ (fault_bit 0x040D 9 "Input over-current fault")
    ∷ (fault_bit 0x040D 10 "Input hardware over-current fault")
    ∷ (fault_bit 0x040D 11 "Relay permanent failure")
    ∷ (fault_bit 0x040D 12 "Bus unbalance fault")
    ∷ (fault_bit 0x040D 13 "Lightning Protection Fault(DC)")
    ∷ (fault_bit 0x040D 14 "Lightning Protection Fault(AC)")
    ∷ (fault_bit 0x040D 15 "Grid relay fault")
    ∷ []

unfoldable pub fault_10_bits : List FaultBit
fault_10_bits =
    (fault_bit 0x040E 0 "USB fault")
    ∷ (fault_bit 0x040E 1 "WIFI fault")
    ∷ (fault_bit 0x040E 2 "Bluetooth fault")
    ∷ (fault_bit 0x040E 3 "RTC clock fault")
    ∷ (fault_bit 0x040E 4 "Communication board EEPROM error")
    ∷ (fault_bit 0x040E 5 "Communication board FLASH error")
    ∷ (fault_bit 0x040E 6 "The battery is partially disconnected")
    ∷ (fault_bit 0x040E 7 "Safety version error")
    ∷ (fault_bit 0x040E 8 "SCI error(DC)")
    ∷ (fault_bit 0x040E 9 "SCI error(AC)")
    ∷ (fault_bit 0x040E 10 "SCI error(Fuse)")
    ∷ (fault_bit 0x040E 11 "Software version inconsistency")
    ∷ (fault_bit 0x040E 12 "Lithium battery 1 communication failure")
    ∷ (fault_bit 0x040E 13 "Lithium battery 2 communication failure")
    ∷ (fault_bit 0x040E 14 "Lithium battery 3 communication failure")
    ∷ (fault_bit 0x040E 15 "Lithium battery 4 communication failure")
    ∷ []

unfoldable pub fault_11_bits : List FaultBit
fault_11_bits =
    (fault_bit 0x040F 0 "Forced shutdown")
    ∷ (fault_bit 0x040F 1 "Remote shutdown")
    ∷ (fault_bit 0x040F 2 "Drms0 shutdown")
    ∷ (fault_bit 0x040F 3 "Power station communication failure shutdown")
    ∷ (fault_bit 0x040F 7 "AFCI force shutdown")
    ∷ (fault_bit 0x040F 8 "Fan 1 fault")
    ∷ (fault_bit 0x040F 9 "Fan 2 fault")
    ∷ (fault_bit 0x040F 10 "Fan 3 fault")
    ∷ (fault_bit 0x040F 11 "Fan 4 fault")
    ∷ (fault_bit 0x040F 12 "Fan 5 fault")
    ∷ (fault_bit 0x040F 13 "Fan 6 fault")
    ∷ (fault_bit 0x040F 14 "Fan 7 fault")
    ∷ (fault_bit 0x040F 15 "Heating film fault")
    ∷ []

unfoldable pub fault_12_bits : List FaultBit
fault_12_bits =
    (fault_bit 0x0410 0 "BMS over-voltage protection")
    ∷ (fault_bit 0x0410 1 "BMS under-voltage protection")
    ∷ (fault_bit 0x0410 2 "BMS high temperature protection")
    ∷ (fault_bit 0x0410 3 "BMS low temperature protection")
    ∷ (fault_bit 0x0410 4 "BMS over-current protection")
    ∷ (fault_bit 0x0410 5 "BMS short-circuit protection")
    ∷ (fault_bit 0x0410 6 "BMS version inconsistency")
    ∷ (fault_bit 0x0410 7 "BMS CAN version inconsistency")
    ∷ (fault_bit 0x0410 8 "BMS CAN version too low")
    ∷ (fault_bit 0x0410 9 "Battery discharge over-temperature protection")
    ∷ (fault_bit 0x0410 10 "Battery discharge low temperature protection")
    ∷ (fault_bit 0x0410 11 "Battery charging over-temperature protection")
    ∷ (fault_bit 0x0410 12 "Arc device communication failure")
    ∷ (fault_bit 0x0410 13 "Battery charging low temperature protection")
    ∷ (fault_bit 0x0410 14 "PID repair failure")
    ∷ (fault_bit 0x0410 15 "PLC module heartbeat lost")
    ∷ []

unfoldable pub fault_13_bits : List FaultBit
fault_13_bits =
    (fault_bit 0x0411 0 "Group string insurance open circuit 1-1")
    ∷ (fault_bit 0x0411 1 "Group string insurance open circuit 1-2")
    ∷ (fault_bit 0x0411 2 "Group string insurance open circuit 2-1")
    ∷ (fault_bit 0x0411 3 "Group string insurance open circuit 2-2")
    ∷ (fault_bit 0x0411 4 "Group string insurance open circuit 3-1")
    ∷ (fault_bit 0x0411 5 "Group string insurance open circuit 3-2")
    ∷ (fault_bit 0x0411 6 "Group string insurance open circuit 4-1")
    ∷ (fault_bit 0x0411 7 "Group string insurance open circuit 4-2")
    ∷ (fault_bit 0x0411 8 "Group string insurance open circuit 5-1")
    ∷ (fault_bit 0x0411 9 "Group string insurance open circuit 5-2")
    ∷ (fault_bit 0x0411 10 "Group string insurance open circuit 6-1")
    ∷ (fault_bit 0x0411 11 "Group string insurance open circuit 6-2")
    ∷ (fault_bit 0x0411 12 "Group string insurance open circuit 7-1")
    ∷ (fault_bit 0x0411 13 "Group string insurance open circuit 7-2")
    ∷ (fault_bit 0x0411 14 "Group string insurance open circuit 8-1")
    ∷ (fault_bit 0x0411 15 "Group string insurance open circuit 8-2")
    ∷ []

unfoldable pub fault_14_bits : List FaultBit
fault_14_bits =
    (fault_bit 0x0412 0 "Group string insurance open circuit 9-1")
    ∷ (fault_bit 0x0412 1 "Group string insurance open circuit 9-2")
    ∷ (fault_bit 0x0412 2 "Group string insurance open circuit 10-1")
    ∷ (fault_bit 0x0412 3 "Group string insurance open circuit 10-2")
    ∷ (fault_bit 0x0412 4 "Group string insurance open circuit 11-1")
    ∷ (fault_bit 0x0412 5 "Group string insurance open circuit 11-2")
    ∷ (fault_bit 0x0412 6 "Group string insurance open circuit 12-1")
    ∷ (fault_bit 0x0412 7 "Group string insurance open circuit 12-2")
    ∷ (fault_bit 0x0412 8 "Group string insurance open circuit 13-1")
    ∷ (fault_bit 0x0412 9 "Group string insurance open circuit 13-2")
    ∷ (fault_bit 0x0412 10 "Group string insurance open circuit 14-1")
    ∷ (fault_bit 0x0412 11 "Group string insurance open circuit 14-2")
    ∷ (fault_bit 0x0412 12 "Group string insurance open circuit 15-1")
    ∷ (fault_bit 0x0412 13 "Group string insurance open circuit 15-2")
    ∷ (fault_bit 0x0412 14 "Group string insurance open circuit 16-1")
    ∷ (fault_bit 0x0412 15 "Group string insurance open circuit 16-2")
    ∷ []

unfoldable pub fault_15_bits : List FaultBit
fault_15_bits =
    (fault_bit 0x0413 0 "Input insurance open circuit 0")
    ∷ (fault_bit 0x0413 1 "Input insurance open circuit 1")
    ∷ (fault_bit 0x0413 2 "Input insurance open circuit 2")
    ∷ (fault_bit 0x0413 3 "Input insurance open circuit 3")
    ∷ (fault_bit 0x0413 4 "Input insurance open circuit 4")
    ∷ (fault_bit 0x0413 5 "Input insurance open circuit 5")
    ∷ (fault_bit 0x0413 6 "Input insurance open circuit 6")
    ∷ (fault_bit 0x0413 7 "Input insurance open circuit 7")
    ∷ (fault_bit 0x0413 8 "Input insurance open circuit 8")
    ∷ (fault_bit 0x0413 9 "Input insurance open circuit 9")
    ∷ (fault_bit 0x0413 10 "Input insurance open circuit 10")
    ∷ (fault_bit 0x0413 11 "Input insurance open circuit 11")
    ∷ (fault_bit 0x0413 12 "Input insurance open circuit 12")
    ∷ (fault_bit 0x0413 13 "Input insurance open circuit 13")
    ∷ (fault_bit 0x0413 14 "Input insurance open circuit 14")
    ∷ (fault_bit 0x0413 15 "Input insurance open circuit 15")
    ∷ []

unfoldable pub fault_16_bits : List FaultBit
fault_16_bits = []

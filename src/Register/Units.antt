-- ===== src/Register/Units.antt =====
-- internal/register/pcu.go, bdu.go, meter.go and dcdc.go: the register groups of the other units.
use sofar_hyd_diag.Prelude.{true, some, List, [], ◌∷◌}
use sofar_hyd_diag.Register.Probe.{ProbeGroup, probe, group}
use sofar_hyd_diag.Register.Enums.{pcu_module_state_enum}

unfoldable pub pcu_groups : List ProbeGroup
pcu_groups =
    (group "Info" (
      (probe "Total PCU online" 0x6004 1)
      ∷ (probe "PCU Code" 0x6010 1)
      ∷ (record (probe "Module state" 0x6020 1) { enum = some pcu_module_state_enum })
      ∷ []))
    ∷ (record (group "Temperatures" (
        (record (probe "Internal temp" 0x6021 1) { unit = "°C"; scale = 10000 })
        ∷ (record (probe "Radiator temp 1" 0x6022 1) { signed = true; unit = "°C"; scale = 10000 })
        ∷ (record (probe "Radiator temp 2" 0x6023 1) { signed = true; unit = "°C"; scale = 10000 })
        ∷ [])) { layout = "column" })
    ∷ (group "Alarms" (
        (probe "Alarm 1" 0x6024 1)
        ∷ (probe "Alarm 2" 0x6025 1)
        ∷ (probe "Alarm 3" 0x6026 1)
        ∷ (probe "Alarm 4" 0x6027 1)
        ∷ []))
    ∷ (group "Faults" (
        (probe "Fault 1" 0x6028 1)
        ∷ (probe "Fault 2" 0x6029 1)
        ∷ (probe "Fault 3" 0x602A 1)
        ∷ (probe "Fault 4" 0x602B 1)
        ∷ []))
    ∷ (group "DC Measurements" (
        (record (probe "DC HV side voltage" 0x602C 1) { unit = "V"; scale = 1000 })
        ∷ (record (probe "DC LV side voltage" 0x602D 1) { unit = "V"; scale = 1000 })
        ∷ (record (probe "DC LV side current" 0x602E 1) { signed = true; unit = "A"; scale = 1000 })
        ∷ (record (probe "DC LV side power" 0x602F 1) { signed = true; unit = "kW"; scale = 100 })
        ∷ []))
    ∷ []

unfoldable pub bdu_groups : List ProbeGroup
bdu_groups =
    (group "Info" (
      (probe "Total BDU online" 0x6084 1)
      ∷ (probe "BDU Code" 0x6090 1)
      ∷ (record (probe "BDU Serial number" 0x6091 10) { is_ascii = true })
      ∷ (record (probe "BDU Version" 0x609B 4) { is_ascii = true })
      ∷ (probe "BDU Fault info" 0x609F 1)
      ∷ []))
    ∷ (group "Topology" (
        (probe "Cells in single cluster" 0x60A0 1)
        ∷ (probe "Total strings" 0x60A1 1)
        ∷ (probe "Total battery circuits" 0x60A2 1)
        ∷ []))
    ∷ []

unfoldable pub meter_groups : List ProbeGroup
meter_groups =
    (group "Meter Info"
      ((probe "Auto-ID status" 0x7080 1) ∷ (probe "Connected meters" 0x7081 1) ∷ []))
    ∷ []

unfoldable pub dcdc_groups : List ProbeGroup
dcdc_groups = []

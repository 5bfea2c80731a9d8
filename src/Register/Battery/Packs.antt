-- ===== src/Register/Battery/Packs.antt =====
-- internal/register/battery.go: the pack drill-down groups.
use sofar_hyd_diag.Prelude.{true, List, [], ◌∷◌, ◌++◌}
use sofar_hyd_diag.Register.Battery.Bms.{cell_probes}
use sofar_hyd_diag.Register.Probe.{ProbeGroup, probe, group}

unfoldable pub pack_probe_groups : List ProbeGroup
unfolding cell_probes
pack_probe_groups =
    (group "Pack Info" (
      (probe "Pack ID" 0x9044 1)
      ∷ (record (probe "Serial Number" 0x9047 10) { is_ascii = true })
      ∷ (record (probe "Total Voltage" 0x9079 1) { unit = "V"; scale = 1000 })
      ∷ (record (probe "SOC" 0x907A 1) { unit = "%"; scale = 10000 })
      ∷ (record (probe "Current" 0x9071 1) { signed = true; unit = "A"; scale = 1000 })
      ∷ (record (probe "Remaining Capacity" 0x9072 1) { unit = "Ah"; scale = 1000 })
      ∷ (record (probe "Full Charge Capacity" 0x9073 1) { unit = "Ah"; scale = 1000 })
      ∷ (record (probe "Cycle Count" 0x9074 1) { unit = "cycles"; scale = 10000 })
      ∷ (probe "Total Packs" 0x907B 1)
      ∷ (probe "Cell Count" 0x907C 1)
      ∷ (record (probe "Balanced Bus Voltage" 0x9104 1) { unit = "V"; scale = 1000 })
      ∷ (record (probe "Balanced Bus Current" 0x9105 1) { signed = true; unit = "A"; scale = 1000 })
      ∷ (record (probe "Manufacturer" 0x9106 4) { is_ascii = true })
      ∷ (record (probe "SOH" 0x910A 1) { unit = "%"; scale = 1000 })
      ∷ (record (probe "Rated Capacity" 0x910B 1) { unit = "Ah"; scale = 1000 })
      ∷ []))
    ∷ (record (group "Cell Voltages" (
        cell_probes
        ++ ((record (probe "Max Cell Voltage" 0x9069 1) { unit = "V"; scale = 10 })
            ∷ (record (probe "Min Cell Voltage" 0x906A 1) { unit = "V"; scale = 10 })
            ∷ []))) { type = "cell_grid" })
    ∷ (record (group "Balance State" ((probe "Balance State" 0x9075 1) ∷ [])) { type = "balance" })
    ∷ (group "Temperatures" (
        (record (probe "Temp 1" 0x906B 1) { signed = true; unit = "°C"; scale = 1000 })
        ∷ (record (probe "Temp 2" 0x906C 1) { signed = true; unit = "°C"; scale = 1000 })
        ∷ (record (probe "Temp 3" 0x906D 1) { signed = true; unit = "°C"; scale = 1000 })
        ∷ (record (probe "Temp 4" 0x906E 1) { signed = true; unit = "°C"; scale = 1000 })
        ∷ (record (probe "MOS Temp" 0x906F 1) { signed = true; unit = "°C"; scale = 1000 })
        ∷ (record (probe "Env Temp" 0x9070 1) { signed = true; unit = "°C"; scale = 1000 })
        ∷ (record (probe "Temp 5" 0x90BC 1) { signed = true; unit = "°C"; scale = 1000 })
        ∷ (record (probe "Temp 6" 0x90BD 1) { signed = true; unit = "°C"; scale = 1000 })
        ∷ (record (probe "Temp 7" 0x90BE 1) { signed = true; unit = "°C"; scale = 1000 })
        ∷ (record (probe "Temp 8" 0x90BF 1) { signed = true; unit = "°C"; scale = 1000 })
        ∷ []))
    ∷ (record (group "Pack Status" (
        (probe "Alarm Status" 0x9076 1)
        ∷ (probe "Protection Status" 0x9077 1)
        ∷ (probe "Fault Status" 0x9078 1)
        ∷ (probe "Alarm Status 2" 0x9124 1)
        ∷ (probe "Protection Status 2" 0x9125 1)
        ∷ (probe "Fault Status 2" 0x9126 1)
        ∷ [])) { type = "pack_status" })
    ∷ []

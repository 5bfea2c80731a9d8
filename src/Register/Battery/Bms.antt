-- ===== src/Register/Battery/Bms.antt =====
-- internal/register/battery.go: BMS information and protection, internal info, and pack registers.
use sofar_hyd_diag.Prelude.{true, List, [], ◌∷◌, ◌++◌}
use sofar_hyd_diag.Register.Probe.{Probe, ProbeGroup, probe, group}

unfoldable pub bms_info_groups : List ProbeGroup
bms_info_groups =
    (group "BMS Info" (
      (record (probe "System Clock" 0x9004 2) { composite = "bms_clock" })
      ∷ (probe "CAN Protocol Ver" 0x9006 1)
      ∷ (record (probe "Manufacturer" 0x9007 4) { is_ascii = true })
      ∷ (probe "BMS Version" 0x900B 1)
      ∷ (probe "Cell Type" 0x900C 1)
      ∷ (probe "Topology Params" 0x900D 1)
      ∷ (record (probe "Remaining Capacity" 0x900E 1) { unit = "%"; scale = 10000 })
      ∷ (record (probe "Total Voltage" 0x900F 1) { unit = "V"; scale = 1000 })
      ∷ (record (probe "Total Current" 0x9010 1) { signed = true; unit = "A"; scale = 1000 })
      ∷ (record (probe "Avg Cell Temp" 0x9011 1) { signed = true; unit = "°C"; scale = 1000 })
      ∷ (record (probe "SOC" 0x9012 1) { unit = "%"; scale = 10000 })
      ∷ (record (probe "Health Level" 0x9013 1) { unit = "%"; scale = 10000 })
      ∷ (record (probe "SW Version" 0x9018 4) { composite = "bms_sw_version" })
      ∷ (record (probe "SN" 0x9024 10) { is_ascii = true })
      ∷ (probe "Online Bitmap" 0x9022 1)
      ∷ (probe "Hibernation State" 0x9023 1)
      ∷ (record (probe "Max Discharge Current" 0x902F 1) {
        signed = true;
        unit = "A";
        scale = 10000;
      })
      ∷ (record (probe "Max Charge Current" 0x9030 1) { signed = true; unit = "A"; scale = 10000 })
      ∷ []))
    ∷ (record (group "Protection" (
        (probe "Protection 0" 0x9014 1)
        ∷ (probe "Protection 1" 0x9015 1)
        ∷ (probe "Alarm 0" 0x9016 1)
        ∷ (probe "Alarm 1" 0x9017 1)
        ∷ (probe "Protection 2" 0x901C 1)
        ∷ (probe "Protection 3" 0x901D 1)
        ∷ [])) { type = "protection" })
    ∷ []

unfoldable pub internal_info_groups : List ProbeGroup
internal_info_groups =
    (group "Internal Info" (
      (record (probe "Total BUS voltage" 0x06CC 1) { unit = "V"; scale = 1000 })
      ∷ (record (probe "BUS positive voltage" 0x06CD 1) { unit = "V"; scale = 1000 })
      ∷ (record (probe "BUS negative voltage" 0x06CE 1) { unit = "V"; scale = 1000 })
      ∷ (record (probe "Buck Boost current" 0x06D0 1) { signed = true; unit = "A"; scale = 100 })
      ∷ (record (probe "Rated power" 0x06ED 1) { unit = "kW"; scale = 1000 })
      ∷ []))
    ∷ []

unfoldable pub pack_info_probes : List Probe
pack_info_probes =
    (record (probe "Balanced Bus Voltage" 0x9104 1) { unit = "V"; scale = 1000 })
    ∷ (record (probe "Balanced Bus Current" 0x9105 1) { signed = true; unit = "A"; scale = 1000 })
    ∷ (record (probe "Manufacturer" 0x9106 4) { is_ascii = true })
    ∷ (record (probe "SOH" 0x910A 1) { unit = "%"; scale = 1000 })
    ∷ (record (probe "Rated Capacity" 0x910B 1) { unit = "Ah"; scale = 1000 })
    ∷ (probe "Alarm Status 2" 0x9124 1)
    ∷ (probe "Protection Status 2" 0x9125 1)
    ∷ (probe "Fault Status 2" 0x9126 1)
    ∷ []

unfoldable pub pack_temps58_probes : List Probe
pack_temps58_probes =
    (record (probe "Temp 5" 0x90BC 1) { signed = true; unit = "°C"; scale = 1000 })
    ∷ (record (probe "Temp 6" 0x90BD 1) { signed = true; unit = "°C"; scale = 1000 })
    ∷ (record (probe "Temp 7" 0x90BE 1) { signed = true; unit = "°C"; scale = 1000 })
    ∷ (record (probe "Temp 8" 0x90BF 1) { signed = true; unit = "°C"; scale = 1000 })
    ∷ []

-- `Cell 1` to `Cell 16`, from 0x9051 on.
unfoldable pub cell_probes : List Probe
cell_probes =
    (record (probe "Cell 1" 0x9051 1) { unit = "V"; scale = 10 })
    ∷ (record (probe "Cell 2" 0x9052 1) { unit = "V"; scale = 10 })
    ∷ (record (probe "Cell 3" 0x9053 1) { unit = "V"; scale = 10 })
    ∷ (record (probe "Cell 4" 0x9054 1) { unit = "V"; scale = 10 })
    ∷ (record (probe "Cell 5" 0x9055 1) { unit = "V"; scale = 10 })
    ∷ (record (probe "Cell 6" 0x9056 1) { unit = "V"; scale = 10 })
    ∷ (record (probe "Cell 7" 0x9057 1) { unit = "V"; scale = 10 })
    ∷ (record (probe "Cell 8" 0x9058 1) { unit = "V"; scale = 10 })
    ∷ (record (probe "Cell 9" 0x9059 1) { unit = "V"; scale = 10 })
    ∷ (record (probe "Cell 10" 0x905a 1) { unit = "V"; scale = 10 })
    ∷ (record (probe "Cell 11" 0x905b 1) { unit = "V"; scale = 10 })
    ∷ (record (probe "Cell 12" 0x905c 1) { unit = "V"; scale = 10 })
    ∷ (record (probe "Cell 13" 0x905d 1) { unit = "V"; scale = 10 })
    ∷ (record (probe "Cell 14" 0x905e 1) { unit = "V"; scale = 10 })
    ∷ (record (probe "Cell 15" 0x905f 1) { unit = "V"; scale = 10 })
    ∷ (record (probe "Cell 16" 0x9060 1) { unit = "V"; scale = 10 })
    ∷ []

unfoldable pub pack_rt_probes : List Probe
unfolding cell_probes
pack_rt_probes =
    ((probe "Pack ID" 0x9044 1)
      ∷ (probe "Timestamp Hi" 0x9045 1)
      ∷ (probe "Timestamp Lo" 0x9046 1)
      ∷ (record (probe "Serial Number" 0x9047 10) { is_ascii = true })
      ∷ [])
    ++ (cell_probes
        ++ ((record (probe "Max Cell Voltage" 0x9069 1) { unit = "V"; scale = 10 })
            ∷ (record (probe "Min Cell Voltage" 0x906A 1) { unit = "V"; scale = 10 })
            ∷ (record (probe "Temp 1" 0x906B 1) { signed = true; unit = "°C"; scale = 1000 })
            ∷ (record (probe "Temp 2" 0x906C 1) { signed = true; unit = "°C"; scale = 1000 })
            ∷ (record (probe "Temp 3" 0x906D 1) { signed = true; unit = "°C"; scale = 1000 })
            ∷ (record (probe "Temp 4" 0x906E 1) { signed = true; unit = "°C"; scale = 1000 })
            ∷ (record (probe "MOS Temp" 0x906F 1) { signed = true; unit = "°C"; scale = 1000 })
            ∷ (record (probe "Env Temp" 0x9070 1) { signed = true; unit = "°C"; scale = 1000 })
            ∷ (record (probe "Current" 0x9071 1) { signed = true; unit = "A"; scale = 1000 })
            ∷ (record (probe "Remaining Capacity" 0x9072 1) { unit = "Ah"; scale = 1000 })
            ∷ (record (probe "Full Charge Capacity" 0x9073 1) { unit = "Ah"; scale = 1000 })
            ∷ (record (probe "Cycle Count" 0x9074 1) { unit = "cycles"; scale = 10000 })
            ∷ (probe "Balance State" 0x9075 1)
            ∷ (probe "Alarm Status" 0x9076 1)
            ∷ (probe "Protection Status" 0x9077 1)
            ∷ (probe "Fault Status" 0x9078 1)
            ∷ (record (probe "Total Voltage" 0x9079 1) { unit = "V"; scale = 1000 })
            ∷ (record (probe "SOC" 0x907A 1) { unit = "%"; scale = 10000 })
            ∷ (probe "Total Packs" 0x907B 1)
            ∷ (probe "Cell Count" 0x907C 1)
            ∷ []))

-- ===== src/Register/Configuration/Modes.antt =====
-- internal/register/configuration.go: the function and operating mode groups.
use sofar_hyd_diag.Prelude.{true, some, [], ◌∷◌}
use sofar_hyd_diag.Register.Probe.{ProbeGroup, probe, group}
use sofar_hyd_diag.Register.ConfigEnums.{
  battery_usage_enum, charge_discharge_control_enum, charging_source_enum, drms_enum,
  dry_contact_enum, grid_detection_enum, power_control_enum, prohibit_enable_enum,
  remote_on_off_enum,
}

unfoldable pub function_config_group : ProbeGroup
function_config_group = group "Function Config" (
    (probe "PCC device config" 0x1060 1)
    ∷ (probe "Resonance detection" 0x1061 1)
    ∷ (probe "CT ratio" 0x1062 1)
    ∷ (record (probe "Hard anti-back-flow" 0x1063 1) { enum = some prohibit_enable_enum })
    ∷ (record (probe "Dry contact control" 0x1064 1) { enum = some dry_contact_enum })
    ∷ (record (probe "Wet contact control" 0x1065 1) { enum = some prohibit_enable_enum })
    ∷ (record (probe "PV branch over-current" 0x1066 1) { unit = "A"; scale = 1000 })
    ∷ (record (probe "Grid detection" 0x1067 1) { enum = some grid_detection_enum })
    ∷ (record (probe "Missing phase domain" 0x1068 1) { unit = "%"; scale = 1000 })
    ∷ (record (probe "PCC bias power" 0x1069 1) { signed = true; unit = "W"; scale = 10000 })
    ∷ (record (probe "Purchase power limit enable" 0x106A 1) { enum = some prohibit_enable_enum })
    ∷ (record (probe "Purchase power limit" 0x106B 1) { unit = "kW"; scale = 1000 })
    ∷ (probe "Intelligent load mode" 0x106C 1)
    ∷ (record (probe "Intelligent load power" 0x106F 1) { unit = "kW"; scale = 1000 })
    ∷ (probe "Parallel module number" 0x1070 1)
    ∷ (record (probe "DRMs control" 0x1071 1) { enum = some drms_enum })
    ∷ (record (probe "Battery usage config" 0x1073 1) { enum = some battery_usage_enum })
    ∷ (probe "Grid side port type" 0x1075 1)
    ∷ (probe "Generator side port type" 0x1076 1)
    ∷ [])

unfoldable pub function_config_2_group : ProbeGroup
function_config_2_group = group "Function Config 2" (
    (record (probe "Arc detection enable" 0x1084 1) { enum = some prohibit_enable_enum })
    ∷ (probe "Peak to peak value" 0x1085 1)
    ∷ (probe "Variance setting" 0x1086 1)
    ∷ (probe "Harmonic energy setting" 0x1087 1)
    ∷ (probe "Amplitude variance" 0x1088 1)
    ∷ (probe "Time domain weight" 0x1089 1)
    ∷ (probe "Frequency domain weight" 0x108A 1)
    ∷ (probe "Arc detection sensitivity" 0x108B 1)
    ∷ (probe "Arc alarm threshold" 0x108C 1)
    ∷ (probe "PLC operation control" 0x10A0 1)
    ∷ (probe "BLE Bluetooth running" 0x10A5 1)
    ∷ (record (probe "PID control word" 0x10AF 1) { enum = some prohibit_enable_enum })
    ∷ (record (probe "PID start auto-run" 0x10B0 1) { enum = some prohibit_enable_enum })
    ∷ (probe "Generator control" 0x10B9 1)
    ∷ (record (probe "Generator power" 0x10BA 1) { unit = "kW"; scale = 1000 })
    ∷ (record (probe "Generator startup voltage" 0x10BB 1) { unit = "V"; scale = 1000 })
    ∷ (record (probe "Generator stop voltage" 0x10BC 1) { unit = "V"; scale = 1000 })
    ∷ (record (probe "Generator SOC" 0x10BD 1) { unit = "%"; scale = 10000 })
    ∷ [])

unfoldable pub remote_control_group : ProbeGroup
remote_control_group = group "Remote Control" (
    (record (probe "Remote on/off" 0x1104 1) { enum = some remote_on_off_enum })
    ∷ (record (probe "Power control mode" 0x1105 1) { enum = some power_control_enum })
    ∷ (record (probe "Export power limit" 0x1106 1) { unit = "%"; scale = 1000 })
    ∷ (record (probe "Import power limit" 0x1107 1) { unit = "%"; scale = 1000 })
    ∷ (record (probe "Reactive power percent" 0x1108 1) { signed = true; unit = "%"; scale = 1000 })
    ∷ (record (probe "Power factor" 0x1109 1) { signed = true; scale = 100 })
    ∷ (record (probe "Active power change rate" 0x110A 1) { unit = "%Pn/min"; scale = 10000 })
    ∷ (record (probe "Reactive response time" 0x110B 1) { unit = "s"; scale = 1000 })
    ∷ (record (probe "Fixed reactive power (SVG)" 0x110C 1) {
      signed = true;
      unit = "kVar";
      scale = 1000;
    })
    ∷ (record (probe "SVG PF compensation" 0x110D 1) { signed = true; unit = "kVar"; scale = 1000 })
    ∷ [])

unfoldable pub timed_charge_discharge_group : ProbeGroup
timed_charge_discharge_group = group "Timed Charge/Discharge" (
    (probe "Rule serial number" 0x1111 1)
    ∷ (record (probe "Charge/discharge enable" 0x1112 1) {
      enum = some charge_discharge_control_enum;
    })
    ∷ (probe "Charge start time" 0x1113 1)
    ∷ (probe "Charge end time" 0x1114 1)
    ∷ (probe "Discharge start time" 0x1115 1)
    ∷ (probe "Discharge end time" 0x1116 1)
    ∷ (record (probe "Charging power" 0x1117 2) { u32 = true; unit = "W"; scale = 10000 })
    ∷ (record (probe "Discharge power" 0x1119 2) { u32 = true; unit = "W"; scale = 10000 })
    ∷ [])

unfoldable pub time_sharing_control_group : ProbeGroup
time_sharing_control_group = group "Time Sharing Control" (
    (probe "Rule serial number" 0x1120 1)
    ∷ (record (probe "Enable control" 0x1121 1) { enum = some prohibit_enable_enum })
    ∷ (probe "Start time" 0x1122 1)
    ∷ (probe "End time" 0x1123 1)
    ∷ (record (probe "Target SOC" 0x1124 1) { unit = "%"; scale = 10000 })
    ∷ (record (probe "Target power" 0x1125 2) { u32 = true; unit = "W"; scale = 10000 })
    ∷ (probe "Effective date" 0x1127 1)
    ∷ (probe "Expiration date" 0x1128 1)
    ∷ (probe "Effective week" 0x1129 1)
    ∷ (probe "Control mode" 0x112A 1)
    ∷ (probe "Additional feature" 0x112B 1)
    ∷ [])

unfoldable pub peak_shaving_group : ProbeGroup
peak_shaving_group = group "Peak Shaving" (
    (record (probe "Upper limit purchase power" 0x1130 2) { u32 = true; unit = "W"; scale = 10000 })
    ∷ (record (probe "Upper limit sell power" 0x1132 2) { u32 = true; unit = "W"; scale = 10000 })
    ∷ (record (probe "Buy to charge batteries" 0x1134 1) { enum = some prohibit_enable_enum })
    ∷ (record (probe "Battery backup SOC" 0x1135 1) { unit = "%"; scale = 10000 })
    ∷ [])

unfoldable pub power_feeding_priority_group : ProbeGroup
power_feeding_priority_group =
    group "Power Feeding Priority"
      ((record (probe "Feed-in power" 0x113A 2) { u32 = true; unit = "W"; scale = 10000 }) ∷ [])

unfoldable pub off_grid_mode_group : ProbeGroup
off_grid_mode_group = group "Off-Grid Mode" (
    (record (probe "Charging source" 0x1144 1) { enum = some charging_source_enum })
    ∷ (record (probe "Grid draw power" 0x1145 1) { unit = "kW"; scale = 100 })
    ∷ (record (probe "Max generator power draw" 0x1146 1) { unit = "kW"; scale = 100 })
    ∷ [])

unfoldable pub communication_protection_group : ProbeGroup
communication_protection_group = group "Communication Protection" (
    (record (probe "Comm interruption protection" 0x11C4 1) { enum = some prohibit_enable_enum })
    ∷ (probe "Comm interruption recovery" 0x11C5 1)
    ∷ (record (probe "Comm interruption threshold" 0x11C6 1) { unit = "min"; scale = 10000 })
    ∷ (probe "Comm interruption data source" 0x11C7 1)
    ∷ [])

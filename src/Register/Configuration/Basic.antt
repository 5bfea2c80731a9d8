-- ===== src/Register/Configuration/Basic.antt =====
-- internal/register/configuration.go: the system, battery and storage mode groups.
use sofar_hyd_diag.Prelude.{true, some, [], ◌∷◌}
use sofar_hyd_diag.Register.Probe.{ProbeGroup, probe, group}
use sofar_hyd_diag.Register.ConfigEnums.{
  anti_back_flow_enum, battery_protocol_enum, baud_rate_enum, cell_type_enum,
  energy_storage_mode_enum, eps_control_enum, input_channel_type_enum, language_enum,
  parallel_mode_enum, prohibit_enable_enum, pv_input_mode_enum, safety_country_enum,
}

unfoldable pub system_config_group : ProbeGroup
system_config_group = group "System Config" (
    (record (probe "RS485 address" 0x100B 1) { scale = 10000 })
    ∷ (record (probe "RS485 baud rate" 0x100C 1) { enum = some baud_rate_enum })
    ∷ (probe "RS485 stop bit" 0x100D 1)
    ∷ (probe "RS485 parity" 0x100E 1)
    ∷ (record (probe "PV input mode" 0x1010 1) { enum = some pv_input_mode_enum })
    ∷ (record (probe "Input channel 1 type" 0x1011 1) { enum = some input_channel_type_enum })
    ∷ (record (probe "Input channel 2 type" 0x1012 1) { enum = some input_channel_type_enum })
    ∷ (record (probe "Anti-back-flow control" 0x1023 1) { enum = some anti_back_flow_enum })
    ∷ (record (probe "Anti-back-flow power" 0x1024 1) {
      signed = true;
      unit = "W";
      scale = 1000000;
    })
    ∷ (record (probe "IV curve scanning" 0x1025 1) { enum = some prohibit_enable_enum })
    ∷ (record (probe "Safety country code" 0x1028 1) { enum = some safety_country_enum })
    ∷ (record (probe "Emergency power supply" 0x1029 1) { enum = some eps_control_enum })
    ∷ (record (probe "EPS wait time" 0x102A 1) { unit = "s"; scale = 10000 })
    ∷ (record (probe "Battery auto activation" 0x102B 1) { enum = some prohibit_enable_enum })
    ∷ (record (probe "Heating film enable" 0x102F 1) { enum = some prohibit_enable_enum })
    ∷ (record (probe "Language" 0x1034 1) { enum = some language_enum })
    ∷ (record (probe "Parallel mode" 0x1035 1) { enum = some parallel_mode_enum })
    ∷ (probe "Parallel control mode" 0x1036 1)
    ∷ (probe "Parallel address" 0x1037 1)
    ∷ (record (probe "Imbalance support" 0x1038 1) { enum = some prohibit_enable_enum })
    ∷ (record (probe "Power generation multiplier" 0x1039 1) { scale = 10 })
    ∷ (record (probe "Buy power multiplier" 0x103A 1) { scale = 10 })
    ∷ (record (probe "Sell power multiplier" 0x103B 1) { scale = 10 })
    ∷ (record (probe "Charge amount multiplier" 0x103C 1) { scale = 10 })
    ∷ (record (probe "Discharge volume multiplier" 0x103D 1) { scale = 10 })
    ∷ [])

unfoldable pub battery_config_group : ProbeGroup
battery_config_group = group "Battery Config" (
    (probe "Battery serial number" 0x1044 1)
    ∷ (probe "Battery address" 0x1045 1)
    ∷ (record (probe "Communication protocol" 0x1046 1) { enum = some battery_protocol_enum })
    ∷ (record (probe "Over-voltage protection" 0x1047 1) { unit = "V"; scale = 1000 })
    ∷ (record (probe "Charging voltage" 0x1048 1) { unit = "V"; scale = 1000 })
    ∷ (record (probe "Under-voltage protection" 0x1049 1) { unit = "V"; scale = 1000 })
    ∷ (record (probe "Min discharge voltage" 0x104A 1) { unit = "V"; scale = 1000 })
    ∷ (record (probe "Max charge current" 0x104B 1) { unit = "A"; scale = 100 })
    ∷ (record (probe "Max discharge current" 0x104C 1) { unit = "A"; scale = 100 })
    ∷ (record (probe "DOD grid-connected" 0x104D 1) { unit = "%"; scale = 10000 })
    ∷ (record (probe "EOD off-grid" 0x104E 1) { unit = "%"; scale = 10000 })
    ∷ (record (probe "Battery capacity" 0x104F 1) { unit = "Ah"; scale = 10000 })
    ∷ (record (probe "Rated voltage" 0x1050 1) { unit = "V"; scale = 1000 })
    ∷ (record (probe "Cell type" 0x1051 1) { enum = some cell_type_enum })
    ∷ (record (probe "Off-grid recovery hysteresis" 0x1052 1) { unit = "%"; scale = 10000 })
    ∷ (probe "Battery address 2" 0x1054 1)
    ∷ (probe "Battery address 3" 0x1055 1)
    ∷ (probe "Battery address 4" 0x1056 1)
    ∷ (record (probe "Lead acid temp coefficient" 0x1057 1) {
      signed = true;
      unit = "mV/Cell";
      scale = 1000;
    })
    ∷ (record (probe "Lead acid recovery voltage" 0x1058 1) { unit = "V"; scale = 1000 })
    ∷ (record (probe "Lead acid float voltage" 0x105A 1) { unit = "V"; scale = 1000 })
    ∷ (record (probe "Maximum charging SOC" 0x105B 1) { unit = "%"; scale = 10000 })
    ∷ [])

unfoldable pub energy_storage_mode_group : ProbeGroup
energy_storage_mode_group = group "Energy Storage Mode" (
    (record (probe "Operating mode" 0x1110 1) { enum = some energy_storage_mode_enum })
    ∷ (record (probe "Passive mode timeout" 0x1184 1) { unit = "s"; scale = 10000 })
    ∷ (probe "Passive mode timeout action" 0x1185 1)
    ∷ (record (probe "Manual mode desired grid power" 0x1187 2) {
      u32 = true;
      signed = true;
      unit = "W";
      scale = 10000;
    })
    ∷ (record (probe "Manual mode min battery power" 0x1189 2) {
      u32 = true;
      signed = true;
      unit = "W";
      scale = 10000;
    })
    ∷ (record (probe "Manual mode max battery power" 0x118B 2) {
      u32 = true;
      signed = true;
      unit = "W";
      scale = 10000;
    })
    ∷ (record (probe "Manual mode permissible sell" 0x118D 2) {
      u32 = true;
      signed = true;
      unit = "W";
      scale = 10000;
    })
    ∷ (record (probe "Manual mode purchase of power" 0x118F 2) {
      u32 = true;
      signed = true;
      unit = "W";
      scale = 10000;
    })
    ∷ [])

-- ===== src/Register/ConfigEnums.antt =====
-- internal/register/config_enum.go: labels of configuration register values.
use sofar_hyd_diag.Prelude.{[], ◌∷◌}
use sofar_hyd_diag.Register.Probe.{Labels}

abbrev pub baud_rate_enum : Labels
baud_rate_enum =
    (0, "4800 bps")
    ∷ (1, "9600 bps")
    ∷ (2, "19200 bps")
    ∷ (3, "38400 bps")
    ∷ (4, "57600 bps")
    ∷ (5, "115200 bps")
    ∷ (10, "1200 bps")
    ∷ (11, "2400 bps")
    ∷ []

abbrev pub pv_input_mode_enum : Labels
pv_input_mode_enum = (0, "Parallel") ∷ (1, "Independent") ∷ []

abbrev pub anti_back_flow_enum : Labels
anti_back_flow_enum =
    (0, "Prohibit")
    ∷ (1, "Default anti-back-flow")
    ∷ (2, "Three phase average")
    ∷ (3, "Phase power mode")
    ∷ (4, "Master slave anti-back-flow")
    ∷ []

abbrev pub eps_control_enum : Labels
eps_control_enum =
    (0, "Turn off EPS")
    ∷ (1, "EPS enable, prohibit cold start")
    ∷ (2, "EPS enable, allow cold start")
    ∷ []

abbrev pub language_enum : Labels
language_enum =
    (0, "Chinese")
    ∷ (1, "English")
    ∷ (2, "Italian")
    ∷ (3, "German")
    ∷ (4, "French")
    ∷ (5, "Portuguese")
    ∷ (6, "Ukrainian")
    ∷ (7, "Slovak")
    ∷ (8, "Spanish")
    ∷ (9, "Finnish")
    ∷ (10, "Polish")
    ∷ (11, "Korean")
    ∷ (12, "Japanese")
    ∷ (13, "Russian")
    ∷ (14, "Czech")
    ∷ []

abbrev pub prohibit_enable_enum : Labels
prohibit_enable_enum = (0, "Disabled") ∷ (1, "Enabled") ∷ []

abbrev pub battery_protocol_enum : Labels
battery_protocol_enum =
    (0, "Sofar BMS/DEFAULT")
    ∷ (1, "Pie Energy/PYLON")
    ∷ (2, "Sofar/GENERAL")
    ∷ (3, "AMASS")
    ∷ (4, "LG")
    ∷ (5, "Alpha.ESS")
    ∷ (6, "CATL")
    ∷ (7, "Weco")
    ∷ (8, "Fronus")
    ∷ (9, "EMS")
    ∷ (10, "Nilar")
    ∷ (11, "BTS 5K")
    ∷ (12, "Move for")
    ∷ (13, "STRONG C")
    ∷ (14, "Reserve")
    ∷ (15, "NEOOM")
    ∷ []

abbrev pub cell_type_enum : Labels
cell_type_enum =
    (0, "Lead acid (custom)")
    ∷ (1, "Lithium iron phosphate")
    ∷ (2, "Ternary")
    ∷ (3, "Lithium titanate")
    ∷ (4, "AGM")
    ∷ (5, "Gel")
    ∷ (6, "Flooded")
    ∷ []

abbrev pub battery_usage_enum : Labels
battery_usage_enum =
    (0, "All charged/discharged")
    ∷ (1, "Only charged")
    ∷ (2, "Only discharged")
    ∷ (3, "All stopped")
    ∷ []

abbrev pub energy_storage_mode_enum : Labels
energy_storage_mode_enum =
    (0, "Self-generation")
    ∷ (1, "Time-sharing tariff")
    ∷ (2, "Timed charge/discharge")
    ∷ (3, "Passive")
    ∷ (4, "Peak-shaving")
    ∷ (5, "Off-grid")
    ∷ (6, "Generator")
    ∷ []

abbrev pub drms_enum : Labels
drms_enum = (0, "Disabled") ∷ (1, "Enabled") ∷ []

abbrev pub parallel_mode_enum : Labels
parallel_mode_enum =
    (0, "Disable parallel") ∷ (1, "Enable AC parallel") ∷ (2, "Enable AC+BAT parallel") ∷ []

abbrev pub grid_detection_enum : Labels
grid_detection_enum = (0, "Disabled") ∷ (1, "Enabled") ∷ []

abbrev pub dry_contact_enum : Labels
dry_contact_enum =
    (0, "Disabled")
    ∷ (1, "Generator mode")
    ∷ (2, "Relay mode 1 (off-grid output high, rest low)")
    ∷ (3, "Relay mode 2 (off-grid output low, rest high)")
    ∷ (4, "Intelligent load control")
    ∷ []

abbrev pub safety_country_enum : Labels
safety_country_enum =
    (0, "Default")
    ∷ (1, "Germany")
    ∷ (2, "Italy")
    ∷ (3, "Spain")
    ∷ (4, "France")
    ∷ (5, "UK")
    ∷ (6, "Australia")
    ∷ (7, "Brazil")
    ∷ (8, "USA")
    ∷ (9, "Japan")
    ∷ (10, "Korea")
    ∷ (11, "Austria")
    ∷ (12, "India")
    ∷ (13, "Thailand")
    ∷ (14, "Czech Republic")
    ∷ (15, "Poland")
    ∷ (16, "Netherlands")
    ∷ (17, "Belgium")
    ∷ (18, "Greece")
    ∷ (19, "Portugal")
    ∷ (20, "South Africa")
    ∷ []

abbrev pub remote_on_off_enum : Labels
remote_on_off_enum = (0, "Remote shutdown") ∷ (1, "Remote boot up") ∷ []

abbrev pub power_control_enum : Labels
power_control_enum =
    (0, "Disabled")
    ∷ (1, "Active power enabled")
    ∷ (2, "Reactive power enabled")
    ∷ (3, "Active + Reactive enabled")
    ∷ []

abbrev pub charge_discharge_control_enum : Labels
charge_discharge_control_enum =
    (0, "Disabled") ∷ (1, "Charge enabled") ∷ (2, "Discharge enabled") ∷ (3, "Both enabled") ∷ []

abbrev pub charging_source_enum : Labels
charging_source_enum = (0, "Grid") ∷ (1, "Generator") ∷ (2, "Reserved") ∷ []

abbrev pub protection_enable_enum : Labels
protection_enable_enum = (0, "Disabled") ∷ (1, "Enabled") ∷ []

abbrev pub reactive_control_mode_enum : Labels
reactive_control_mode_enum =
    (0, "Off")
    ∷ (1, "Reactive power enabled")
    ∷ (2, "Static PF mode")
    ∷ (3, "External PF mode")
    ∷ []

abbrev pub enable_status_enum : Labels
enable_status_enum =
    (0, "Success")
    ∷ (1, "In operation")
    ∷ (65531, "Failed (controller refused)")
    ∷ (65532, "Failed (controller not responding)")
    ∷ (65533, "Failed (function disabled)")
    ∷ (65534, "Failed (parameter storage failed)")
    ∷ (65535, "Failed (input parameters incorrect)")
    ∷ []

abbrev pub input_channel_type_enum : Labels
input_channel_type_enum =
    (0, "Not in use") ∷ (1, "PV panel") ∷ (2, "Battery") ∷ (3, "Fan input") ∷ []

abbrev pub time_share_control_mode_enum : Labels
time_share_control_mode_enum = (0, "Prohibit") ∷ (1, "Enable") ∷ []

abbrev pub peak_shaving_buy_enum : Labels
peak_shaving_buy_enum = (0, "Prohibited") ∷ (1, "Enabled") ∷ []

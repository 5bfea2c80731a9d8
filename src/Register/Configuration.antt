-- ===== src/Register/Configuration.antt =====
-- internal/register/configuration.go: all groups of the configuration section.
mod Basic
mod Modes
mod Safety
unfoldable pub use Basic.{system_config_group, battery_config_group, energy_storage_mode_group}
unfoldable pub use Modes.{
  function_config_group, function_config_2_group, remote_control_group,
  timed_charge_discharge_group, time_sharing_control_group, peak_shaving_group,
  power_feeding_priority_group, off_grid_mode_group, communication_protection_group,
}
unfoldable pub use Safety.{
  safety_power_on_group, safety_voltage_protection_group, safety_frequency_protection_group,
  safety_dci_protection_group, safety_island_gfci_iso_group, safety_reactive_power_group,
}
use sofar_hyd_diag.Prelude.{List, [], ◌∷◌, ◌++◌}
use sofar_hyd_diag.Register.Probe.{ProbeGroup}

unfoldable pub safety_groups : List ProbeGroup
unfolding safety_power_on_group safety_voltage_protection_group safety_frequency_protection_group
    safety_dci_protection_group safety_island_gfci_iso_group safety_reactive_power_group
safety_groups =
    safety_power_on_group ∷ safety_voltage_protection_group ∷ safety_frequency_protection_group
    ∷ safety_dci_protection_group ∷ safety_island_gfci_iso_group ∷ safety_reactive_power_group ∷ []

unfoldable pub build_configuration_groups : List ProbeGroup
unfolding safety_groups system_config_group battery_config_group energy_storage_mode_group
    function_config_group function_config_2_group remote_control_group timed_charge_discharge_group
    time_sharing_control_group peak_shaving_group power_feeding_priority_group off_grid_mode_group
    communication_protection_group
build_configuration_groups =
    (system_config_group ∷ battery_config_group ∷ energy_storage_mode_group ∷ function_config_group
      ∷ function_config_2_group ∷ remote_control_group ∷ timed_charge_discharge_group
      ∷ time_sharing_control_group ∷ peak_shaving_group ∷ power_feeding_priority_group
      ∷ off_grid_mode_group ∷ communication_protection_group ∷ [])
    ++ safety_groups

unfoldable pub configuration_groups : List ProbeGroup
unfolding build_configuration_groups
configuration_groups = build_configuration_groups

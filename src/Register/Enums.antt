-- ===== src/Register/Enums.antt =====
-- internal/register/enum.go and dcdc_enum.go: labels of register values.
use sofar_hyd_diag.Prelude.{[], ◌∷◌}
use sofar_hyd_diag.Register.Probe.{Labels}

abbrev pub running_state_enum : Labels
running_state_enum =
    (0, "Waiting")
    ∷ (1, "Detecting")
    ∷ (2, "Grid-connected")
    ∷ (3, "EPS mode")
    ∷ (4, "Recoverable fault")
    ∷ (5, "Permanent fault")
    ∷ (6, "Upgrading")
    ∷ (7, "Self-charging")
    ∷ (8, "SVG status")
    ∷ (9, "PID status")
    ∷ (10, "Limit the load")
    ∷ (11, "Standby monitoring")
    ∷ []

abbrev pub battery_state_enum : Labels
battery_state_enum =
    (1, "Charging")
    ∷ (2, "Discharging")
    ∷ (3, "Sleeping")
    ∷ (4, "Fault")
    ∷ (5, "Loss reduction")
    ∷ []

abbrev pub dcdc_running_state_enum : Labels
dcdc_running_state_enum = (0, "Standby") ∷ (1, "Discharge") ∷ (2, "Charge") ∷ []

abbrev pub pcu_module_state_enum : Labels
pcu_module_state_enum =
    (0, "Update")
    ∷ (1, "Check")
    ∷ (2, "Normal")
    ∷ (3, "Active")
    ∷ (4, "Fault")
    ∷ (5, "Permanent fault")
    ∷ []

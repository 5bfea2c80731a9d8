-- ===== src/Register/Generated.antt =====
-- internal/register/pv.go and statistics.go: groups made by a loop.
use sofar_hyd_diag.Prelude.{
  ℕ, zero, suc, ◌+◌, ◌-◌, ◌*◌, true, String, List, [], ◌∷◌, ◌++◌, u16, decimal, str_append,
}
use sofar_hyd_diag.Register.Probe.{Probe, ProbeGroup, probe, group}

unfoldable pub pv_group : ℕ → ProbeGroup
unfolding decimal
pv_group ch =
    let base_addr = u16 (0x0584 + 3 * (ch - 1)) in
    record (group (str_append "PV " (decimal ch)) (
      (record (probe "Voltage" base_addr 1) { unit = "V"; scale = 1000 })
      ∷ (record (probe "Current" (u16 (base_addr + 1)) 1) {
        signed = true;
        unit = "A";
        scale = 100;
      })
      ∷ (record (probe "Power" (u16 (base_addr + 2)) 1) { unit = "kW"; scale = 100 })
      ∷ [])) { layout = "column" }

-- The loop over the channels: how many are left, and the next one.
unfoldable pub pv_groups : ℕ → ℕ → List ProbeGroup
unfolding pv_group
pv_groups zero ch = []
pv_groups (suc n) ch = pv_group ch ∷ pv_groups n (suc ch)

unfoldable pub generate_pv_groups : ℕ → List ProbeGroup
unfolding pv_groups
generate_pv_groups channels =
    pv_groups channels 1
    ++ (group "Total PV Power"
          ((record (probe "Total PV power" 0x05C4 1) { unit = "kW"; scale = 1000 }) ∷ [])
        ∷ [])

abbrev metric_names : List String
metric_names =
    "Power Generation" ∷ "Load Consumption" ∷ "Grid Bought" ∷ "Grid Sold" ∷ "Battery Charge"
    ∷ "Battery Discharge" ∷ []

-- The probes of one group: base address, stride, scale, the index of the next metric, the metrics.
unfoldable pub metric_probes : ℕ → ℕ → ℕ → ℕ → List String → List Probe
metric_probes base stride scale i [] = []
metric_probes base stride scale i (name ∷ names) =
    (record (probe name (u16 (base + stride * i)) 2) { u32 = true; unit = "kWh"; scale = scale })
    ∷ metric_probes base stride scale (suc i) names

unfoldable pub statistics_groups : List ProbeGroup
unfolding metric_probes
statistics_groups =
    (record (group "Today" (metric_probes 0x0684 4 100 0 metric_names)) { layout = "column" })
    ∷ (record (group "Total" (metric_probes 0x0686 4 1000 0 metric_names)) { layout = "column" })
    ∷ []

-- ===== src/Register/System.antt =====
-- internal/register/system.go: identity, firmware, status and temperatures; grid and EPS output.
use sofar_hyd_diag.Prelude.{true, some, List, [], ◌∷◌}
use sofar_hyd_diag.Register.Probe.{ProbeGroup, probe, group}
use sofar_hyd_diag.Register.Enums.{running_state_enum}

unfoldable pub system_groups : List ProbeGroup
system_groups =
    (group "Identity" ((record (probe "Inverter SN" 0x0445 10) { is_ascii = true }) ∷ []))
    ∷ (group "Firmware" (
        (record (probe "HW version" 0x044D 2) { is_ascii = true })
        ∷ (record (probe "Comm SW version" 0x044F 4) { is_ascii = true })
        ∷ (record (probe "Master DSP version" 0x0453 4) { is_ascii = true })
        ∷ (record (probe "Slave DSP version" 0x0457 4) { is_ascii = true })
        ∷ (record (probe "Safety cert version" 0x045B 2) { is_ascii = true })
        ∷ []))
    ∷ (group "Status" (
        (record (probe "Running state" 0x0404 1) { enum = some running_state_enum })
        ∷ (record (probe "Grid-connected wait time" 0x0417 1) { unit = "s"; scale = 10000 })
        ∷ (record (probe "Power gen time today" 0x0426 1) { unit = "min"; scale = 10000 })
        ∷ (record (probe "System time" 0x042C 6) { composite = "system_time" })
        ∷ []))
    ∷ (group "Firmware (Extended)" (
        (probe "ARM BOOT version" 0x045D 1)
        ∷ (probe "Master DSP BOOT ver" 0x045E 1)
        ∷ (probe "Slave DSP BOOT ver" 0x045F 1)
        ∷ (record (probe "Safety cert SW ver" 0x0460 4) { is_ascii = true })
        ∷ (record (probe "Safety package ver" 0x0467 6) { is_ascii = true })
        ∷ []))
    ∷ (group "Temperatures" (
        (record (probe "Ambient temp 1" 0x0418 1) { signed = true; unit = "°C"; scale = 10000 })
        ∷ (record (probe "Ambient temp 2" 0x0419 1) { signed = true; unit = "°C"; scale = 10000 })
        ∷ (record (probe "Radiator temp" 0x041A 1) { signed = true; unit = "°C"; scale = 10000 })
        ∷ (record (probe "Module temp" 0x0420 1) { signed = true; unit = "°C"; scale = 10000 })
        ∷ []))
    ∷ (group "Protection" (
        (record (probe "Insulation impedance" 0x042B 1) { unit = "kΩ"; scale = 10000 })
        ∷ (record (probe "Fan speed" 0x043E 1) { unit = "r/min"; scale = 10000 })
        ∷ []))
    ∷ []

unfoldable pub grid_groups : List ProbeGroup
grid_groups =
    (group "General" (
      (record (probe "Grid frequency" 0x0484 1) { unit = "Hz"; scale = 100 })
      ∷ (record (probe "Total active power" 0x0485 1) { signed = true; unit = "kW"; scale = 100 })
      ∷ (record (probe "Total reactive power" 0x0486 1) {
        signed = true;
        unit = "kVar";
        scale = 100;
      })
      ∷ (record (probe "Total apparent power" 0x0487 1) {
        signed = true;
        unit = "kVA";
        scale = 100;
      })
      ∷ []))
    ∷ (record (group "Phase R" (
        (record (probe "Voltage" 0x048D 1) { unit = "V"; scale = 1000 })
        ∷ (record (probe "Current" 0x048E 1) { unit = "A"; scale = 100 })
        ∷ (record (probe "Active power" 0x048F 1) { signed = true; unit = "kW"; scale = 100 })
        ∷ (record (probe "Reactive power" 0x0490 1) { signed = true; unit = "kVar"; scale = 100 })
        ∷ (record (probe "Power factor" 0x0491 1) { signed = true; scale = 10 })
        ∷ [])) { layout = "column" })
    ∷ (record (group "Phase S" (
        (record (probe "Voltage" 0x0498 1) { unit = "V"; scale = 1000 })
        ∷ (record (probe "Current" 0x0499 1) { unit = "A"; scale = 100 })
        ∷ (record (probe "Active power" 0x049A 1) { signed = true; unit = "kW"; scale = 100 })
        ∷ (record (probe "Reactive power" 0x049B 1) { signed = true; unit = "kVar"; scale = 100 })
        ∷ (record (probe "Power factor" 0x049C 1) { signed = true; scale = 10 })
        ∷ [])) { layout = "column" })
    ∷ (record (group "Phase T" (
        (record (probe "Voltage" 0x04A3 1) { unit = "V"; scale = 1000 })
        ∷ (record (probe "Current" 0x04A4 1) { unit = "A"; scale = 100 })
        ∷ (record (probe "Active power" 0x04A5 1) { signed = true; unit = "kW"; scale = 100 })
        ∷ (record (probe "Reactive power" 0x04A6 1) { signed = true; unit = "kVar"; scale = 100 })
        ∷ (record (probe "Power factor" 0x04A7 1) { signed = true; scale = 10 })
        ∷ [])) { layout = "column" })
    ∷ (group "PCC Power" (
        (record (probe "PCC active power" 0x0488 1) { signed = true; unit = "kW"; scale = 100 })
        ∷ (record (probe "PCC reactive power" 0x0489 1) {
          signed = true;
          unit = "kVar";
          scale = 100;
        })
        ∷ (record (probe "PCC apparent power" 0x048A 1) {
          signed = true;
          unit = "kVA";
          scale = 100;
        })
        ∷ (record (probe "PCC active power 2" 0x048B 1) {
          signed = true;
          unit = "kW";
          scale = 1000;
        })
        ∷ (record (probe "PCC current R" 0x0492 1) { unit = "A"; scale = 100 })
        ∷ (record (probe "PCC active power R" 0x0493 1) { signed = true; unit = "kW"; scale = 100 })
        ∷ (record (probe "PCC reactive power R" 0x0494 1) {
          signed = true;
          unit = "kVar";
          scale = 100;
        })
        ∷ []))
    ∷ (group "Line Voltages" (
        (record (probe "L1 (R/S)" 0x04BA 1) { unit = "V"; scale = 1000 })
        ∷ (record (probe "L2 (S/T)" 0x04BB 1) { unit = "V"; scale = 1000 })
        ∷ (record (probe "L3 (T/R)" 0x04BC 1) { unit = "V"; scale = 1000 })
        ∷ []))
    ∷ (group "Load" (
        (record (probe "External power gen" 0x04AE 1) { unit = "kW"; scale = 100 })
        ∷ (record (probe "Total load power" 0x04AF 1) { unit = "kW"; scale = 100 })
        ∷ (record (probe "Total power factor" 0x04BD 1) { signed = true; scale = 10 })
        ∷ (record (probe "Generation efficiency" 0x04BF 1) { unit = "%"; scale = 100 })
        ∷ []))
    ∷ []

unfoldable pub eps_groups : List ProbeGroup
eps_groups =
    (group "General" (
      (record (probe "Load active power" 0x0504 1) { signed = true; unit = "kW"; scale = 100 })
      ∷ (record (probe "Load reactive power" 0x0505 1) {
        signed = true;
        unit = "kVar";
        scale = 100;
      })
      ∷ (record (probe "Load apparent power" 0x0506 1) { signed = true; unit = "kVA"; scale = 100 })
      ∷ (record (probe "Output voltage frequency" 0x0507 1) { unit = "Hz"; scale = 100 })
      ∷ []))
    ∷ (record (group "Phase R" (
        (record (probe "Inverter output voltage" 0x050A 1) { unit = "V"; scale = 1000 })
        ∷ (record (probe "Load current" 0x050B 1) { signed = true; unit = "A"; scale = 100 })
        ∷ (record (probe "Load active power" 0x050C 1) { signed = true; unit = "kW"; scale = 100 })
        ∷ [])) { layout = "column" })
    ∷ (record (group "Phase S" (
        (record (probe "Inverter output voltage" 0x0512 1) { unit = "V"; scale = 1000 })
        ∷ (record (probe "Load current" 0x0513 1) { signed = true; unit = "A"; scale = 100 })
        ∷ [])) { layout = "column" })
    ∷ (record (group "Phase T" (
        (record (probe "Inverter output voltage" 0x051A 1) { unit = "V"; scale = 1000 })
        ∷ (record (probe "Load current" 0x051B 1) { signed = true; unit = "A"; scale = 100 })
        ∷ [])) { layout = "column" })
    ∷ (group "Emergency Load" (
        (record (probe "Emergency load voltage R" 0x0510 1) { unit = "V"; scale = 1000 })
        ∷ (record (probe "Emergency load voltage S" 0x0518 1) { unit = "V"; scale = 1000 })
        ∷ (record (probe "Emergency load voltage T" 0x0520 1) { unit = "V"; scale = 1000 })
        ∷ []))
    ∷ []

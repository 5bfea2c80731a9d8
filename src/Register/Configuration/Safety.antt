-- ===== src/Register/Configuration/Safety.antt =====
-- internal/register/configuration.go: the safety parameter groups.
use sofar_hyd_diag.Prelude.{true, some, [], ◌∷◌}
use sofar_hyd_diag.Register.Probe.{ProbeGroup, probe, group}
use sofar_hyd_diag.Register.ConfigEnums.{protection_enable_enum, reactive_control_mode_enum}

unfoldable pub safety_power_on_group : ProbeGroup
safety_power_on_group = group "Safety: Power On" (
    (record (probe "Grid connection wait time" 0x0800 1) { unit = "s"; scale = 10000 })
    ∷ (record (probe "Rise rate" 0x0801 1) { unit = "%Pn/min"; scale = 10000 })
    ∷ (record (probe "Reconnect wait time" 0x0802 1) { unit = "s"; scale = 10000 })
    ∷ (record (probe "Rise speed after recovery" 0x0803 1) { unit = "%Pn/min"; scale = 10000 })
    ∷ (record (probe "Start-up voltage high" 0x0804 1) { unit = "V"; scale = 1000 })
    ∷ (record (probe "Start-up voltage low" 0x0805 1) { unit = "V"; scale = 1000 })
    ∷ (record (probe "Start-up frequency high" 0x0806 1) { unit = "Hz"; scale = 100 })
    ∷ (record (probe "Start-up frequency low" 0x0807 1) { unit = "Hz"; scale = 100 })
    ∷ (record (probe "Reconnect voltage high" 0x0808 1) { unit = "V"; scale = 1000 })
    ∷ (record (probe "Reconnect voltage low" 0x0809 1) { unit = "V"; scale = 1000 })
    ∷ (record (probe "Reconnect frequency high" 0x080A 1) { unit = "Hz"; scale = 100 })
    ∷ (record (probe "Reconnect frequency low" 0x080B 1) { unit = "Hz"; scale = 100 })
    ∷ [])

unfoldable pub safety_voltage_protection_group : ProbeGroup
safety_voltage_protection_group = group "Safety: Voltage Protection" (
    (record (probe "Protection enable" 0x0840 1) { enum = some protection_enable_enum })
    ∷ (record (probe "Rated grid voltage" 0x0841 1) { unit = "V"; scale = 1000 })
    ∷ (record (probe "Over-voltage 1 value" 0x0842 1) { unit = "V"; scale = 1000 })
    ∷ (record (probe "Over-voltage 1 time" 0x0843 1) { unit = "ms"; scale = 100000 })
    ∷ (record (probe "Over-voltage 2 value" 0x0844 1) { unit = "V"; scale = 1000 })
    ∷ (record (probe "Over-voltage 2 time" 0x0845 1) { unit = "ms"; scale = 100000 })
    ∷ (record (probe "Over-voltage 3 value" 0x0846 1) { unit = "V"; scale = 1000 })
    ∷ (record (probe "Over-voltage 3 time" 0x0847 1) { unit = "ms"; scale = 100000 })
    ∷ (record (probe "Under-voltage 1 value" 0x0848 1) { unit = "V"; scale = 1000 })
    ∷ (record (probe "Under-voltage 1 time" 0x0849 1) { unit = "ms"; scale = 100000 })
    ∷ (record (probe "Under-voltage 2 value" 0x084A 1) { unit = "V"; scale = 1000 })
    ∷ (record (probe "Under-voltage 2 time" 0x084B 1) { unit = "ms"; scale = 100000 })
    ∷ (record (probe "Under-voltage 3 value" 0x084C 1) { unit = "V"; scale = 1000 })
    ∷ (record (probe "Under-voltage 3 time" 0x084D 1) { unit = "ms"; scale = 100000 })
    ∷ (record (probe "10-min over-voltage value" 0x084E 1) { unit = "V"; scale = 1000 })
    ∷ (probe "OV1 time high" 0x084F 1)
    ∷ (probe "OV2 time high" 0x0850 1)
    ∷ (probe "OV3 time high" 0x0851 1)
    ∷ [])

unfoldable pub safety_frequency_protection_group : ProbeGroup
safety_frequency_protection_group = group "Safety: Frequency Protection" (
    (record (probe "Protection enable" 0x0880 1) { enum = some protection_enable_enum })
    ∷ (record (probe "Rated frequency" 0x0881 1) { unit = "Hz"; scale = 100 })
    ∷ (record (probe "Over-frequency 1 value" 0x0882 1) { unit = "Hz"; scale = 100 })
    ∷ (record (probe "Over-frequency 1 time" 0x0883 1) { unit = "ms"; scale = 100000 })
    ∷ (record (probe "Over-frequency 2 value" 0x0884 1) { unit = "Hz"; scale = 100 })
    ∷ (record (probe "Over-frequency 2 time" 0x0885 1) { unit = "ms"; scale = 100000 })
    ∷ (record (probe "Over-frequency 3 value" 0x0886 1) { unit = "Hz"; scale = 100 })
    ∷ (record (probe "Over-frequency 3 time" 0x0887 1) { unit = "ms"; scale = 100000 })
    ∷ (record (probe "Under-frequency 1 value" 0x0888 1) { unit = "Hz"; scale = 100 })
    ∷ (record (probe "Under-frequency 1 time" 0x0889 1) { unit = "ms"; scale = 100000 })
    ∷ (record (probe "Under-frequency 2 value" 0x088A 1) { unit = "Hz"; scale = 100 })
    ∷ (record (probe "Under-frequency 2 time" 0x088B 1) { unit = "ms"; scale = 100000 })
    ∷ (record (probe "Under-frequency 3 value" 0x088C 1) { unit = "Hz"; scale = 100 })
    ∷ (record (probe "Under-frequency 3 time" 0x088D 1) { unit = "ms"; scale = 100000 })
    ∷ (probe "OF1 time high" 0x088E 1)
    ∷ (probe "OF2 time high" 0x088F 1)
    ∷ (probe "OF3 time high" 0x0890 1)
    ∷ (probe "UF1 time high" 0x0891 1)
    ∷ (probe "UF2 time high" 0x0892 1)
    ∷ (probe "UF3 time high" 0x0893 1)
    ∷ (record (probe "Rate of change value" 0x0894 1) { unit = "Hz/s"; scale = 100 })
    ∷ (record (probe "Rate of change time" 0x0895 1) { unit = "ms"; scale = 100000 })
    ∷ [])

unfoldable pub safety_dci_protection_group : ProbeGroup
safety_dci_protection_group = group "Safety: DCI Protection" (
    (record (probe "DCI enable" 0x08C0 1) { enum = some protection_enable_enum })
    ∷ (record (probe "DCI level 1 value" 0x08C1 1) { unit = "mA"; scale = 10000 })
    ∷ (record (probe "DCI level 1 time" 0x08C2 1) { unit = "ms"; scale = 100000 })
    ∷ (record (probe "DCI level 2 value" 0x08C3 1) { unit = "mA"; scale = 10000 })
    ∷ (record (probe "DCI level 2 time" 0x08C4 1) { unit = "ms"; scale = 100000 })
    ∷ (record (probe "DCI level 3 value" 0x08C5 1) { unit = "mA"; scale = 10000 })
    ∷ (record (probe "DCI level 3 time" 0x08C6 1) { unit = "ms"; scale = 100000 })
    ∷ (record (probe "DCI R-phase test" 0x08C7 1) { signed = true; unit = "mA"; scale = 10000 })
    ∷ (record (probe "DCI S-phase test" 0x08C8 1) { signed = true; unit = "mA"; scale = 10000 })
    ∷ (record (probe "DCI T-phase test" 0x08C9 1) { signed = true; unit = "mA"; scale = 10000 })
    ∷ (record (probe "DCI level 1 ratio" 0x08CA 1) { unit = "%"; scale = 100 })
    ∷ (record (probe "DCI level 2 ratio" 0x08CB 1) { unit = "%"; scale = 100 })
    ∷ (record (probe "DCI level 3 ratio" 0x08CC 1) { unit = "%"; scale = 100 })
    ∷ [])

unfoldable pub safety_island_gfci_iso_group : ProbeGroup
safety_island_gfci_iso_group = group "Safety: Island/GFCI/ISO" (
    (record (probe "Island detection enable" 0x0A00 1) { enum = some protection_enable_enum })
    ∷ (record (probe "GFCI enable" 0x0A01 1) { enum = some protection_enable_enum })
    ∷ (record (probe "ISO enable" 0x0A02 1) { enum = some protection_enable_enum })
    ∷ (record (probe "Insulation impedance" 0x0A03 1) { unit = "kΩ"; scale = 10000 })
    ∷ (record (probe "Leakage current limit" 0x0A04 1) { unit = "mA"; scale = 10000 })
    ∷ (record (probe "Leakage current value" 0x0A05 1) { unit = "mA/kVA"; scale = 10000 })
    ∷ (probe "PE and N control" 0x0A06 1)
    ∷ (probe "Island detection sensitivity" 0x0A07 1)
    ∷ (record (probe "Ground fault threshold" 0x0A08 1) { unit = "kΩ"; scale = 10000 })
    ∷ (probe "Power calculation control" 0x0A09 1)
    ∷ [])

unfoldable pub safety_reactive_power_group : ProbeGroup
safety_reactive_power_group = group "Safety: Reactive Power" (
    (record (probe "Reactive control enable" 0x0980 1) { enum = some reactive_control_mode_enum })
    ∷ (record (probe "Power factor" 0x0981 1) { signed = true; scale = 1 })
    ∷ (record (probe "Fixed reactive percent" 0x0982 1) { signed = true; unit = "%"; scale = 100 })
    ∷ (record (probe "First PF value" 0x0983 1) { signed = true; scale = 1 })
    ∷ (record (probe "First power percent" 0x0984 1) { signed = true; unit = "%"; scale = 10000 })
    ∷ (record (probe "Second PF value" 0x0985 1) { signed = true; scale = 1 })
    ∷ (record (probe "Second power percent" 0x0986 1) { signed = true; unit = "%"; scale = 10000 })
    ∷ (record (probe "Third PF value" 0x0987 1) { signed = true; scale = 1 })
    ∷ (record (probe "Third power percent" 0x0988 1) { signed = true; unit = "%"; scale = 10000 })
    ∷ (record (probe "Fourth PF value" 0x0989 1) { signed = true; scale = 1 })
    ∷ (record (probe "Fourth power percent" 0x098A 1) { signed = true; unit = "%"; scale = 10000 })
    ∷ (record (probe "LockinV voltage percent" 0x098B 1) { unit = "%"; scale = 10000 })
    ∷ (record (probe "LockoutV voltage percent" 0x098C 1) { unit = "%"; scale = 10000 })
    ∷ (probe "Phase type" 0x099F 1)
    ∷ (record (probe "Regulation duration" 0x09A0 1) { unit = "s"; scale = 10000 })
    ∷ (record (probe "Max lag reactive percent" 0x09A1 1) { unit = "%Pn"; scale = 100 })
    ∷ [])

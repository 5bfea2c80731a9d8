-- ===== src/Register/Battery.antt =====
-- internal/register/battery.go: battery channels, pack selection and BMS bitmaps.
pub mod Bms
pub mod Packs
pub mod BitTables
pub mod Addressing
use sofar_hyd_diag.Prelude.{
  ℕ, zero, suc, ◌+◌, ◌-◌, ◌*◌, ◌/◌, ◌%◌, Bool, true, String, some, List, [], ◌∷◌, ◌++◌, ◌&&◌, ◌==◌,
  if◌then◌else◌, u16, decimal, str_append,
}
use sofar_hyd_diag.Register.Probe.{Probe, ProbeGroup, probe, group}
use sofar_hyd_diag.Register.Enums.{battery_state_enum}
use sofar_hyd_diag.Register.FaultBit.{FaultBit}
use sofar_hyd_diag.Register.Fault.{bit_set}

-- The group of channel `ch`, from 1 on.
unfoldable pub channel_group : ℕ → ProbeGroup
unfolding decimal
channel_group ch =
    let base_addr = u16 (0x0604 + 7 * (ch - 1)) in
    let state_base = u16 (0x0644 + 4 * (ch - 1)) in
    record (group (str_append "Channel " (decimal ch)) (
      (record (probe "Voltage" base_addr 1) { unit = "V"; scale = 1000 })
      ∷ (record (probe "Current" (u16 (base_addr + 1)) 1) {
        signed = true;
        unit = "A";
        scale = 100;
      })
      ∷ (record (probe "Power" (u16 (base_addr + 2)) 1) { signed = true; unit = "kW"; scale = 100 })
      ∷ (record (probe "Env Temp" (u16 (base_addr + 3)) 1) {
        signed = true;
        unit = "°C";
        scale = 10000;
      })
      ∷ (record (probe "SOC" (u16 (base_addr + 4)) 1) { unit = "%"; scale = 10000 })
      ∷ (record (probe "SOH" (u16 (base_addr + 5)) 1) { unit = "%"; scale = 10000 })
      ∷ (record (probe "Cycles" (u16 (base_addr + 6)) 1) { unit = "cycles"; scale = 10000 })
      ∷ (record (probe "Charge Limit" state_base 1) { unit = "A"; scale = 100 })
      ∷ (record (probe "Discharge Limit" (u16 (state_base + 1)) 1) { unit = "A"; scale = 100 })
      ∷ (record (probe "State" (u16 (state_base + 2)) 1) { enum = some battery_state_enum })
      ∷ [])) { layout = "column" }

-- The loop `for ch := 1; ch <= channels; ch++`: the channels left, and the next one.
unfoldable pub channel_groups : ℕ → ℕ → List ProbeGroup
unfolding channel_group
channel_groups zero ch = []
channel_groups (suc n) ch = channel_group ch ∷ channel_groups n (suc ch)

unfoldable pub global_stats_group : ProbeGroup
global_stats_group = group "Global Stats" (
    (record (probe "Total charge/discharge power" 0x0667 1) {
      signed = true;
      unit = "kW";
      scale = 1000;
    })
    ∷ (record (probe "Average SOC" 0x0668 1) { unit = "%"; scale = 10000 })
    ∷ (record (probe "Battery SOH" 0x0669 1) { unit = "%"; scale = 10000 })
    ∷ (probe "Pack count" 0x066A 1)
    ∷ (record (probe "Total capacity" 0x066B 1) { unit = "Ah"; scale = 10000 })
    ∷ [])

unfoldable pub generate_battery_groups : ℕ → List ProbeGroup
unfolding channel_groups global_stats_group
generate_battery_groups channels = channel_groups channels 1 ++ (global_stats_group ∷ [])

-- `EncodePackQuery`, for coordinates from 1 on, as the hub clamps them: `x & 0xFF` is x % 256, the
-- group is in bits 8 to 11, and the two fields share no bit.
unfoldable pub encode_pack_query : ℕ → ℕ → ℕ → ℕ → ℕ
encode_pack_query input tower pack towers_per_input =
    let group_idx = (input - 1) * towers_per_input + (tower - 1) in
    let pack_idx = pack - 1 in u16 (pack_idx % 256) + u16 (group_idx % 16 * 256)

-- `DecodeTopology`: parallel strings, and packs in a string.
unfoldable pub decode_topology : ℕ → ℕ × ℕ
decode_topology val = (val / 256, val % 256)

unfoldable pub decode_bms_bitmap : ℕ → List FaultBit → ℕ → List String
unfolding bit_set
decode_bms_bitmap value [] addr = []
decode_bms_bitmap value (fb ∷ table) addr =
    let rest = decode_bms_bitmap value table addr in
    if fb.addr == addr && bit_set value fb.bit then fb.desc ∷ rest else rest

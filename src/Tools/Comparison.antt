-- ===== src/Tools/Comparison.antt =====
-- tools/xlsx-discover/comparison.go: the registers of a spreadsheet, of the protocol's document and
-- of the probes, side by side. A map is a list with each key once; what walks over it goes in the
-- list's order.
pub mod Merging
pub mod Missing
mod Examples
use sofar_hyd_diag.Prelude.{
  ℕ, ◌+◌, ◌-◌, ◌%◌, Bool, true, false, ◌&&◌, ◌||◌, String, Option, none, some, List, [], ◌∷◌, ◌++◌,
  map, ltb, leb, ◌==◌, if◌then◌else◌, length, take, any_of, utf8, hex_text,
}
use text.Mathlib.Text.{◌==◌ as same_text}
use sofar_hyd_diag.Prelude.Sorting.{Sort}
use sofar_hyd_diag.Register.Probe.{Probe, ProbeGroup, flatten_probe_groups}
use sofar_hyd_diag.Register.System.{system_groups, grid_groups, eps_groups}
use sofar_hyd_diag.Register.Configuration.{configuration_groups}
use sofar_hyd_diag.Register.Generated.{generate_pv_groups, statistics_groups}
use sofar_hyd_diag.Register.Battery.{generate_battery_groups}
use sofar_hyd_diag.Register.Battery.Bms.{
  bms_info_groups, internal_info_groups, pack_rt_probes, pack_info_probes, pack_temps58_probes,
}
use sofar_hyd_diag.Register.Battery.Packs.{pack_probe_groups}
use sofar_hyd_diag.Register.Units.{meter_groups, dcdc_groups, pcu_groups, bdu_groups}
use sofar_hyd_diag.Register.Fault.{fault_registers}

-- Texts are bytes; `scale` counts ten-thousandths.
pub record RegisterInfo : Type 0 where
  pub addr : ℕ  -- uint16
  pub name : List ℕ
  pub type : String
  pub scale : ℕ
  pub unit : String
  pub rw : String
  pub source : String

abbrev pub RegisterMap : Type 0
RegisterMap = List (ℕ × RegisterInfo)

unfoldable pub info_at : ℕ → RegisterMap → Option RegisterInfo
info_at a [] = none
info_at a (p ∷ m) = let rest = info_at a m in if a == p.0 then some p.1 else rest

-- m[a] = info
unfoldable pub assign : ℕ → RegisterInfo → RegisterMap → RegisterMap
assign a info [] = (a, info) ∷ []
assign a info (p ∷ m) = let rest = p ∷ assign a info m in if a == p.0 then (a, info) ∷ m else rest

pub record ComparisonEntry : Type 0 where
  pub addr : ℕ
  pub xlsx : Option RegisterInfo
  pub v138 : Option RegisterInfo
  pub probes : Option RegisterInfo

abbrev pub entry_addr : ComparisonEntry → ℕ
entry_addr e = e.addr

-- The keys of a map, into a set.
unfoldable pub add_addrs : RegisterMap → List ℕ → List ℕ
add_addrs [] addrs = addrs
add_addrs (p ∷ m) addrs = add_addrs m (if any_of (λ b. p.0 == b) addrs then addrs else p.0 ∷ addrs)

module _ (xlsx v138 probes : RegisterMap) where
  unfoldable pub entry_at : ℕ → ComparisonEntry
  unfolding info_at
  entry_at a = record {
    addr = a;
    xlsx = info_at a xlsx;
    v138 = info_at a v138;
    probes = info_at a probes;
  }

  unfoldable pub compare : Sort entry_addr → List ComparisonEntry
  unfolding entry_at add_addrs
  compare by = by.sort (map entry_at (add_addrs probes (add_addrs v138 (add_addrs xlsx []))))

abbrev pub is_some {ℓ} : {A : Type ℓ} → Option A → Bool
is_some none = false
is_some (some _) = true

-- What `statusLabel` prints for the three.
abbrev pub label : Bool → Bool → Bool → String
label true true true = "all three"
label true true false = "missing from probes"
label true false true = "XLSX+probes"
label true false false = "XLSX only"
label false true true = "V1.38+probes"
label false true false = "V1.38 only"
label false false true = "probes only"
label false false false = "unknown"

unfoldable pub status_label : ComparisonEntry → String
status_label e = label (is_some e.xlsx) (is_some e.v138) (is_some e.probes)

pub record AddressGroup : Type 0 where
  pub name : String
  pub min_addr : ℕ
  pub max_addr : ℕ

abbrev address_group : String → ℕ → ℕ → AddressGroup
address_group name low high = record { name = name; min_addr = low; max_addr = high }

abbrev pub groups : List AddressGroup
groups =
    address_group "General (0x00xx)" 0x0000 0x00FF
    ∷ address_group "System (0x04xx)" 0x0400 0x04FF
    ∷ address_group "EPS/PV (0x05xx)" 0x0500 0x05FF
    ∷ address_group "Battery (0x06xx)" 0x0600 0x06FF
    ∷ address_group "Arc (0x07xx)" 0x0700 0x707F
    ∷ address_group "Meter (0x70xx)" 0x7080 0x70FF
    ∷ address_group "Safety (0x08xx-0x0Axx)" 0x0800 0x0AFF
    ∷ address_group "Config (0x10xx-0x13xx)" 0x1000 0x13FF
    ∷ address_group "Network/Control (0x20xx)" 0x2000 0x20FF
    ∷ address_group "Compatible (0x4Exx)" 0x4E00 0x4EFF
    ∷ address_group "DCDC (0x50xx-0x54xx)" 0x5000 0x54FF
    ∷ address_group "PCU (0x60xx)" 0x6000 0x607F
    ∷ address_group "BDU (0x60xx)" 0x6080 0x60FF
    ∷ address_group "BMS (0x90xx-0x91xx)" 0x9000 0x91FF
    ∷ []

-- `addr&0xFF00`, as it is printed.
unfoldable pub group_name_in : ℕ → List AddressGroup → List ℕ
group_name_in addr [] = utf8 "Other (0x" ++ (hex_text 4 (addr - addr % 256) ++ utf8 ")")
group_name_in addr (g ∷ gs) =
    let rest = group_name_in addr gs in
    if leb g.min_addr addr && leb addr g.max_addr then utf8 g.name else rest

unfoldable pub group_name : ℕ → List ℕ
unfolding group_name_in
group_name addr = group_name_in addr groups

-- A text longer than `max_len`, which is 3 at least, is cut to it.
unfoldable pub entry_name : ComparisonEntry → ℕ → List ℕ
entry_name e max_len =
    let name : List ℕ = elim e.v138 [
      | some info ↦ info.name
      | none ↦ elim e.xlsx [
        | some info ↦ info.name
        | none ↦ elim e.probes [ some info ↦ info.name | none ↦ [] ]
      ]
    ] in
    if ltb max_len (length name) then take (max_len - 3) name ++ utf8 "..." else name

-- The counts of the summary at the end of `printComparison`.
pub record Summary : Type 0 where
  pub xlsx_count : ℕ
  pub v138_count : ℕ
  pub probe_count : ℕ
  pub unique_count : ℕ
  pub missing_count : ℕ

abbrev if_some {ℓ} : {A : Type ℓ} → Option A → ℕ
if_some o = if is_some o then 1 else 0

unfoldable pub summary : List ComparisonEntry → Summary
summary [] = record {
  xlsx_count = 0;
  v138_count = 0;
  probe_count = 0;
  unique_count = 0;
  missing_count = 0;
}
summary (e ∷ es) =
    let rest = summary es in
    record {
      xlsx_count = if_some e.xlsx + rest.xlsx_count;
      v138_count = if_some e.v138 + rest.v138_count;
      probe_count = if_some e.probes + rest.probe_count;
      unique_count = 1 + rest.unique_count;
      missing_count =
          if same_text (status_label e) "missing from probes"
          then 1 + rest.missing_count
          else rest.missing_count;
    }

-- `addProbe` of `currentProbeAddrs`.
unfoldable pub probe_info : Probe → RegisterInfo
probe_info p = record {
  addr = p.addr;
  name = utf8 p.name;
  type = if p.is_ascii then "ASCII" else if p.u32 then "U32" else if p.signed then "S16" else "U16";
  scale = p.scale;
  unit = p.unit;
  rw = "R";
  source = "probes";
}

unfoldable pub add_probes : List Probe → RegisterMap → RegisterMap
unfolding assign probe_info
add_probes [] m = m
add_probes (p ∷ ps) m = add_probes ps (assign p.addr (probe_info p) m)

-- What `addGroups` and the loops of `currentProbeAddrs` walk over, in order.
unfoldable pub current_probes : List Probe
unfolding flatten_probe_groups system_groups grid_groups eps_groups configuration_groups
    generate_pv_groups generate_battery_groups statistics_groups bms_info_groups meter_groups
    dcdc_groups pcu_groups bdu_groups internal_info_groups pack_rt_probes pack_info_probes
    pack_temps58_probes pack_probe_groups fault_registers
current_probes =
    flatten_probe_groups (
      system_groups
      ++ (grid_groups
          ++ (eps_groups
              ++ (configuration_groups
                  ++ (generate_pv_groups 16
                      ++ (generate_battery_groups 8
                          ++ (statistics_groups
                              ++ (bms_info_groups
                                  ++ (meter_groups
                                      ++ (dcdc_groups
                                          ++ (pcu_groups
                                              ++ (bdu_groups ++ internal_info_groups))))))))))))
    ++ (pack_rt_probes
        ++ (pack_info_probes
            ++ (pack_temps58_probes
                ++ (flatten_probe_groups pack_probe_groups ++ fault_registers))))

unfoldable pub current_probe_addrs : RegisterMap
unfolding add_probes
current_probe_addrs = add_probes current_probes []

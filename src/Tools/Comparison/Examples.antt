-- ===== src/Tools/Comparison/Examples.antt =====
-- The comparison of two small maps with the probes of the code.
use sofar_hyd_diag.Prelude.{ℕ, ◌≡◌, refl, String, none, some, [], ◌∷◌, utf8, hex_text}
use sofar_hyd_diag.Prelude.Sorting.{by_insertion}
use sofar_hyd_diag.Tools.Comparison.{
  RegisterInfo, RegisterMap, ComparisonEntry, entry_addr, status_label, group_name_in, group_name,
  entry_name,
}
use sofar_hyd_diag.Tools.Comparison.Missing.{report, IsReport, compare-IsReport}

abbrev info : ℕ → String → String → RegisterInfo
info a name source = record {
  addr = a;
  name = utf8 name;
  type = "U16";
  scale = 0;
  unit = "";
  rw = "R";
  source = source;
}

abbrev spreadsheet : RegisterMap
spreadsheet =
    (0x3005, info 0x3005 "Reserved" "xlsx") ∷ (0x0404, info 0x0404 "Running state" "xlsx") ∷ []

abbrev document : RegisterMap
document =
    (0x0404, info 0x0404 "System running state" "v138") ∷ (0x3005, info 0x3005 "Spare" "v138") ∷ []

compare-IsReport_example :
    IsReport spreadsheet document (report spreadsheet document (by_insertion entry_addr))
compare-IsReport_example = compare-IsReport spreadsheet document (by_insertion entry_addr)

abbrev spare : ComparisonEntry
spare = record {
  addr = 0x3005;
  xlsx = some (info 0x3005 "Reserved" "xlsx");
  v138 = some (info 0x3005 "A spare register with a long name" "v138");
  probes = none;
}

spare_label : status_label spare ≡ "missing from probes"
unfolding status_label
spare_label = refl

spare_name : entry_name spare 30 ≡ utf8 "A spare register with a lon..."
unfolding entry_name
spare_name = refl

-- The registers of the safety group stand with those of Arc.
safety_group : group_name 0x0800 ≡ utf8 "Arc (0x07xx)"
unfolding group_name group_name_in
safety_group = refl

other_group : group_name 0x0312 ≡ utf8 "Other (0x0300)"
unfolding group_name group_name_in hex_text
other_group = refl

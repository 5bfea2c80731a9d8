-- ===== src/Register/Probe.antt =====
-- internal/register/probe.go and probe_group.go: what to read and how to show it.
use sofar_hyd_diag.Prelude.{ℕ, String, Bool, false, Option, none, List, [], ◌∷◌, ◌++◌}

-- map[uint16]string: value and label.
abbrev pub Labels : Type 0
Labels = List (ℕ × String)

-- `scale` counts ten-thousandths, which every Scale of the register map is a multiple of: a Scale
-- of 0.01 is 100, and one that the source leaves out is 0. `enum` is none for a nil map.
pub record Probe : Type 0 where
  pub name : String
  pub addr : ℕ  -- uint16
  pub count : ℕ  -- uint16
  pub is_ascii : Bool
  pub signed : Bool
  pub unit : String
  pub scale : ℕ
  pub enum : Option Labels
  pub u32 : Bool
  pub composite : String

pub record ProbeGroup : Type 0 where
  pub name : String
  pub probes : List Probe
  pub layout : String
  pub type : String

-- A literal that sets no other field.
abbrev pub probe : String → ℕ → ℕ → Probe
probe name addr count = record {
  name = name;
  addr = addr;
  count = count;
  is_ascii = false;
  signed = false;
  unit = "";
  scale = 0;
  enum = none;
  u32 = false;
  composite = "";
}

abbrev pub group : String → List Probe → ProbeGroup
group name probes = record { name = name; probes = probes; layout = ""; type = "" }

-- `flattenProbeGroups` of internal/hub/section.go.
unfoldable pub flatten_probe_groups : List ProbeGroup → List Probe
flatten_probe_groups [] = []
flatten_probe_groups (g ∷ gs) = g.probes ++ flatten_probe_groups gs

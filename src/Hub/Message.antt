-- ===== src/Hub/Message.antt =====
-- internal/hub/message.go: the messages to a client that reads of sections make. A text made of
-- register bytes is a list of bytes. A timestamp is left out.
use sofar_hyd_diag.Prelude.{ℕ, Bool, String, Option, none, List}

pub record SchemaGroup : Type 0 where
  pub name : String
  pub layout : String
  pub type : String
  pub registers : List String
  pub cell_count : ℕ

pub record PackSchemaContext : Type 0 where
  pub input : ℕ
  pub tower : ℕ
  pub pack : ℕ

pub record SectionSchemaMessage : Type 0 where
  pub section : String
  pub groups : List SchemaGroup
  pub pack_context : Option PackSchemaContext

pub record RegisterValueMessage : Type 0 where
  pub section : String
  pub group : String
  pub name : String
  pub value : List ℕ
  pub error : String
  pub register_addr : ℕ
  pub raw_value : List ℕ

pub record BitmapData : Type 0 where
  pub towers : ℕ
  pub packs_per_tower : ℕ
  pub online : List ℕ
  pub detected_topology : List ℕ
  pub mismatch : Bool

-- The two kinds of GroupData that the server makes: by its Type.
pub data GroupData : Type 0 where
  bitmap : String → BitmapData → GroupData
  protection : String → List (String × List ℕ) → GroupData

-- `sectionResult.msg`, and the messages to one client: an OutboundMessage by its type.
pub data HubMessage : Type 0 where
  register_value : RegisterValueMessage → HubMessage
  section_schema : SectionSchemaMessage → HubMessage
  section_complete : String → HubMessage
  section_faults : String → List String → HubMessage
  section_data : String → List GroupData → HubMessage
  section_error : String → String → HubMessage
  connection_state : String → String → HubMessage
  pack_error : PackSchemaContext → String → HubMessage

abbrev pub new_register_value : String → String → String → List ℕ → String → ℕ → List ℕ → HubMessage
new_register_value section group name value error addr raw_value = register_value record {
  section = section;
  group = group;
  name = name;
  value = value;
  error = error;
  register_addr = addr;
  raw_value = raw_value;
}

abbrev pub new_section_schema : String → List SchemaGroup → SectionSchemaMessage
new_section_schema section groups = record {
  section = section;
  groups = groups;
  pack_context = none;
}

-- ===== src/Hub/Reads.antt =====
-- internal/hub/hub_streaming.go: the read of a section of each kind, as its goroutine makes it.
use sofar_hyd_diag.Prelude.{
  ℕ, zero, suc, ◌+◌, ◌-◌, ◌*◌, ◌/◌, ◌%◌, ◌^◌, Bool, false, not, ◌&&◌, ◌||◌, String, Option, none,
  some, List, [], ◌∷◌, ◌++◌, map, length, ltb, leb, ◌==◌, if◌then◌else◌, keep, utf8, decimal_text,
  hex_text,
}
use text.Mathlib.Text.{starts_with}
use text.Mathlib.Text.{◌==◌ as same_text}
use sofar_hyd_diag.Modbus.Conn.{uint16_at}
use sofar_hyd_diag.Broker.State.{ReadRequest}
use sofar_hyd_diag.Register.Probe.{Probe, ProbeGroup, flatten_probe_groups}
use sofar_hyd_diag.Register.Batch.{analyze_batch_plan}
use sofar_hyd_diag.Register.Batch.Sorting.{AddrSort}
use sofar_hyd_diag.Register.Fault.{fault_registers, decode_faults}
use sofar_hyd_diag.Register.Battery.{encode_pack_query, decode_topology, generate_battery_groups}
use sofar_hyd_diag.Register.Battery.Bms.{internal_info_groups}
use sofar_hyd_diag.Register.Battery.Packs.{pack_probe_groups}
use sofar_hyd_diag.Hub.Message.{
  section_faults, section_complete, section_data, section_schema, pack_error, GroupData, bitmap,
  protection, SchemaGroup, SectionSchemaMessage, new_section_schema,
}
use sofar_hyd_diag.Hub.Section.{Section}
use sofar_hyd_diag.Hub.SpanTracker.{SpanTracker}
use sofar_hyd_diag.Hub.Streaming.{
  ProbeResult, data_bytes, fails, requested_batch, wrote, waited, Reader, Stream, emit, check,
  request, no_results, read_batch_spans,
}

abbrev pub topo_inputs : ℕ
topo_inputs = 1

abbrev pub topo_towers : ℕ
topo_towers = 2

abbrev pub topo_packs_per_tower : ℕ
topo_packs_per_tower = 10

-- One group of `buildSectionSchema`.
abbrev schema_group : ProbeGroup → SchemaGroup
schema_group g = record {
  name = g.name;
  layout = g.layout;
  type = g.type;
  registers = map (λ (p : Probe). p.name) g.probes;
  cell_count = 0;
}

unfoldable pub build_section_schema : String → List ProbeGroup → SectionSchemaMessage
build_section_schema section_name groups = new_section_schema section_name (map schema_group groups)

unfoldable pub count_battery_channels : List ProbeGroup → ℕ
count_battery_channels groups =
    length (keep (λ (g : ProbeGroup). starts_with g.name "Channel ") groups)

-- The section's spans read, from a trace on.
abbrev read_section : Reader → String → Section → Option (List ProbeResult) × Stream
read_section rd section_name sec =
    read_batch_spans rd section_name sec.probes sec.batch_plan.spans sec.span_tracker []

-- What a fault read says of the register at `a`.
abbrev fault_value : Probe → ProbeResult → ℕ → Option ℕ
fault_value fp (fails e) a = none
fault_value fp (data_bytes bytes) a =
    let offset = (a - fp.addr) * 2 in
    if leb fp.addr a && (ltb a (fp.addr + fp.count) && leb (offset + 2) (length bytes))
    then some (uint16_at bytes offset)
    else none

-- The map `faultData`: what a later read says of a register replaces what an earlier one does.
unfoldable pub fault_data : List Probe → List ProbeResult → ℕ → Option ℕ
fault_data [] rs a = none
fault_data (fp ∷ fps) [] a = none
fault_data (fp ∷ fps) (r ∷ rs) a = elim (fault_data fps rs a) [
  | some val ↦ some val
  | none ↦ fault_value fp r a
]

-- The requests for the fault registers.
abbrev fault_reads : List ReadRequest
fault_reads = map (λ (fp : Probe). the_request fp) fault_registers
  where
    the_request : Probe → ReadRequest
    the_request fp = record { addr = fp.addr; count = fp.count }

unfoldable pub read_faults : Reader → String → Stream → Stream
unfolding fault_data
read_faults rd section_name st =
    let results = rd.read_many st.trace fault_reads in
    emit (section_faults section_name (decode_faults (fault_data fault_registers results)))
      (record st { trace = requested_batch fault_reads ∷ st.trace })

unfoldable pub stream_standard_read : Reader → String → Section → Stream
stream_standard_read rd section_name sec =
    let (over, st) = check rd (read_section rd section_name sec).1 in
    if over
    then st
    else emit (section_complete section_name)
        (if sec.fault_section then read_faults rd section_name st else st)

-- The groups of a battery section with so many channels.
unfoldable pub battery_section_groups : ℕ → List ProbeGroup
battery_section_groups channels = generate_battery_groups channels ++ internal_info_groups

-- What a read of the battery section ends in: the channels found, where they are others than the
-- section's, so that the hub is to rebuild it and read it again; or the read.
pub data BatteryRead : Type 0 where
  rebuild : ℕ → Stream → BatteryRead
  finished : Stream → BatteryRead

-- The channels that the register 0x066A says there are, if they are to replace the section's.
unfoldable pub detected_channels : ProbeResult → Section → Option ℕ
unfolding count_battery_channels
detected_channels (fails e) sec = none
detected_channels (data_bytes bytes) sec =
    let detected = uint16_at bytes 0 in
    if leb 2 (length bytes)
      && (ltb 0 detected && (leb detected 8 && not (detected == count_battery_channels sec.groups)))
    then some detected
    else none

unfoldable pub stream_battery_batch_read : Reader → Section → BatteryRead
stream_battery_batch_read rd sec =
    let start : Stream = record {
      tracker = sec.span_tracker;
      probe_results = no_results sec.probes;
      trace = [];
    } in
    let (reply, st) = request rd 0x066A 1 start in
    elim (detected_channels reply sec) [
      | some detected ↦ rebuild detected st
      | none ↦
          let (over, st1) = check rd st in
          let st2 =
            (read_batch_spans rd "battery" sec.probes sec.batch_plan.spans sec.span_tracker
              st1.trace).1 in
          let (over', st3) = check rd st2 in
          if over
          then finished st1
          else if over'
          then finished st3
          else finished (emit (section_complete "battery") st3)
    ]

-- The bytes of the first probe at an address that has a result with a value.
unfoldable pub value_at : ℕ → List Probe → List ProbeResult → Option ℕ
value_at addr [] rs = none
value_at addr (p ∷ ps) [] = none
value_at addr (p ∷ ps) (fails e ∷ rs) = value_at addr ps rs
value_at addr (p ∷ ps) (data_bytes bytes ∷ rs) =
    let later = value_at addr ps rs in
    if p.addr == addr && leb 2 (length bytes) then some (uint16_at bytes 0) else later

abbrev is_protection_addr : ℕ → Bool
is_protection_addr addr =
    addr == 0x9014
    || (addr == 0x9015
        || (addr == 0x9016 || (addr == 0x9017 || (addr == 0x901C || addr == 0x901D))))

-- `buildProtectionGroup` with the selection of its probes, in the source's order.
unfoldable pub protection_items : List Probe → List ProbeResult → List (String × List ℕ)
protection_items [] rs = []
protection_items (p ∷ ps) [] = []
protection_items (p ∷ ps) (fails e ∷ rs) = protection_items ps rs
protection_items (p ∷ ps) (data_bytes bytes ∷ rs) =
    let later = protection_items ps rs in
    if is_protection_addr p.addr && leb 2 (length bytes)
    then (p.name, utf8 "0x" ++ hex_text 4 (uint16_at bytes 0)) ∷ later
    else later

-- The bitmaps of the towers from `t` on, of those left: all packs of a tower whose bit is set.
unfoldable pub online_bitmaps : ℕ → ℕ → ℕ → List ℕ
online_bitmaps zero t tower_bitmap = []
online_bitmaps (suc left) t tower_bitmap =
    (if tower_bitmap / 2 ^ t % 2 == 1 then 2 ^ topo_packs_per_tower - 1 else 0)
    ∷ online_bitmaps left (suc t) tower_bitmap

-- The text of a topology, and whether it is not the one of the constants.
unfoldable pub detected_topology : Option ℕ → List ℕ × Bool
detected_topology none = ([], false)
detected_topology (some val) =
    let (strings, packs) = decode_topology val in
    (
      decimal_text strings ++ (utf8 " strings x " ++ (decimal_text packs ++ utf8 " packs")),
      not (strings == topo_towers) || not (packs == topo_packs_per_tower),
    )

unfoldable pub bms_groups : List Probe → List ProbeResult → List GroupData
bms_groups probes results =
    let (text, mismatch) = detected_topology (value_at 0x900D probes results) in
    let towers : ℕ = elim (value_at 0x9022 probes results) [ none ↦ 0 | some v ↦ v ] in
    bitmap "Battery Topology" (record {
      towers = topo_towers;
      packs_per_tower = topo_packs_per_tower;
      online = online_bitmaps topo_towers 0 towers;
      detected_topology = text;
      mismatch = mismatch;
    })
    ∷ protection "Protection & Alarms" (protection_items probes results)
    ∷ []

unfoldable pub stream_bms_batch_read : Reader → Section → Stream
unfolding bms_groups
stream_bms_batch_read rd sec =
    let (results, st) = read_section rd "bms" sec in
    elim results [
      | none ↦ st
      | some rs ↦
          let (over, st1) = check rd st in
          if over
          then st1
          else emit (section_complete "bms")
              (emit (section_data "bms" (bms_groups sec.probes rs)) st1)
    ]

-- The end of `triggerSectionRead`: the read that is started for a section, by its name.
unfoldable pub section_read : Reader → String → Section → BatteryRead
unfolding stream_bms_batch_read stream_battery_batch_read stream_standard_read
section_read rd section_name sec =
    if same_text section_name "bms"
    then finished (stream_bms_batch_read rd sec)
    else if same_text section_name "battery"
    then stream_battery_batch_read rd sec
    else finished (stream_standard_read rd section_name sec)

-- What such a read has done.
abbrev pub stream_of : BatteryRead → Stream
stream_of (rebuild channels st) = st
stream_of (finished st) = st

-- `buildPackSchema`: only the probes named "Cell ..." count as cells.
abbrev pack_schema_group : ProbeGroup → SchemaGroup
pack_schema_group g = record (schema_group g) {
  cell_count =
      if same_text g.type "cell_grid"
      then length (keep (λ (p : Probe). starts_with p.name "Cell ") g.probes)
      else 0;
}

unfoldable pub build_pack_schema : ℕ → ℕ → ℕ → List ProbeGroup → SectionSchemaMessage
build_pack_schema input tower pack groups = record {
  section = "bms";
  groups = map pack_schema_group groups;
  pack_context = some (record { input = input; tower = tower; pack = pack });
}

abbrev write_register : Reader → ℕ → ℕ → Stream → Option String × Stream
write_register rd addr value st =
    (rd.write st.trace addr value, record st { trace = wrote addr value ∷ st.trace })

-- Waits, and says whether the context ended the wait.
abbrev wait : Reader → ℕ → Stream → Bool × Stream
wait rd ms st = check rd (record st { trace = waited ms ∷ st.trace })

-- The pack selected and settled, its registers are read and shown.
unfoldable pub read_pack : AddrSort → Reader → ℕ → ℕ → ℕ → Stream → Stream
unfolding build_pack_schema
read_pack by rd input tower pack st =
    let st1 = emit (section_schema (build_pack_schema input tower pack pack_probe_groups)) st in
    let st2 =
      (read_batch_spans rd "bms" (flatten_probe_groups pack_probe_groups)
        (analyze_batch_plan by.sort pack_probe_groups).spans st1.tracker st1.trace).1 in
    let (over, st3) = check rd st2 in if over then st3 else emit (section_complete "bms") st3

-- The settling after the pack is selected.
abbrev settle_and_read : AddrSort → Reader → ℕ → ℕ → ℕ → ℕ → Stream → Stream
settle_and_read by rd settle_ms input tower pack st =
    let (over, st1) = wait rd settle_ms st in
    if over then st1 else read_pack by rd input tower pack st1

-- `streamPackBatchRead`: `tracker` is the hub's for packs. Where the pack cannot be selected, the
-- client gets a pack_error, if it is still there.
unfoldable pub stream_pack_batch_read :
    AddrSort → Reader → Option SpanTracker → ℕ → ℕ → ℕ → ℕ → Stream
unfolding read_pack
stream_pack_batch_read by rd tracker settle_ms input tower pack =
    let query = encode_pack_query input tower pack topo_towers in
    let start : Stream = record { tracker = tracker; probe_results = []; trace = [] } in
    let (failed, st) = write_register rd 0x9020 query start in
    elim failed [
      | none ↦ settle_and_read by rd settle_ms input tower pack st
      | some e ↦
          let (over, st1) = wait rd (settle_ms * 2) st in
          let (failed', st2) = write_register rd 0x9020 query st1 in
          if over then st1 else elim failed' [
            | none ↦ settle_and_read by rd settle_ms input tower pack st2
            | some e' ↦
                emit
                  (pack_error (record { input = input; tower = tower; pack = pack })
                    "timeout writing pack selection after retry")
                  st2
          ]
    ]

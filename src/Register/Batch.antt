-- ===== src/Register/Batch.antt =====
-- internal/register/batch.go: merging the probes of a section into batch reads.
pub mod Sorting
pub mod Placing
pub mod Layout
pub mod Complete
pub mod Apart
pub mod Limit
use sofar_hyd_diag.Prelude.{
  ℕ, ◌+◌, ◌-◌, ◌*◌, String, Bool, true, false, List, [], ◌∷◌, ◌++◌, ltb, ◌==◌, if◌then◌else◌, u16,
  sub16,
}
use sofar_hyd_diag.Register.Probe.{Probe, ProbeGroup}

abbrev pub max_batch_registers : ℕ
max_batch_registers = 60

pub record ProbeMapping : Type 0 where
  pub probe : Probe
  pub group_name : String
  pub byte_offset : ℕ
  pub byte_length : ℕ

pub record BatchSpan : Type 0 where
  pub start_addr : ℕ  -- uint16
  pub total_count : ℕ  -- uint16
  pub probes : List ProbeMapping

pub record BatchPlan : Type 0 where
  pub spans : List BatchSpan
  pub unbatchable : List ProbeMapping

pub record AnnotatedProbe : Type 0 where
  pub probe : Probe
  pub group_name : String

-- The first loop of `AnalyzeBatchPlan` over one group: the probes to read, and those with no
-- register.
unfoldable pub collect_probes : String → List Probe → List AnnotatedProbe × List ProbeMapping
collect_probes group_name [] = ([], [])
collect_probes group_name (p ∷ ps) =
    let (real, unbatchable) = collect_probes group_name ps in
    if p.count == 0
    then (
      real,
      record { probe = p; group_name = group_name; byte_offset = 0; byte_length = 0 } ∷ unbatchable,
    )
    else (record { probe = p; group_name = group_name } ∷ real, unbatchable)

unfoldable pub collect : List ProbeGroup → List AnnotatedProbe × List ProbeMapping
unfolding collect_probes
collect [] = ([], [])
collect (g ∷ gs) =
    let (real, unbatchable) = collect_probes g.name g.probes in
    let (more, more_unbatchable) = collect gs in (real ++ more, unbatchable ++ more_unbatchable)

-- The mapping of a probe in a span that starts at `start`.
abbrev pub mapping_from : ℕ → AnnotatedProbe → ProbeMapping
mapping_from start ap = record {
  probe = ap.probe;
  group_name = ap.group_name;
  byte_offset = sub16 ap.probe.addr start * 2;
  byte_length = ap.probe.count * 2;
}

unfoldable pub new_span : AnnotatedProbe → BatchSpan
new_span ap = record {
  start_addr = ap.probe.addr;
  total_count = ap.probe.count;
  probes =
      record {
        probe = ap.probe;
        group_name = ap.group_name;
        byte_offset = 0;
        byte_length = ap.probe.count * 2;
      }
      ∷ [];
}

-- What the body of the second loop does with a probe: put it into the current span, or close that
-- span and start another.
pub data Placement : Type 0 where
  joins starts : BatchSpan → Placement

unfoldable pub place : BatchSpan → AnnotatedProbe → Placement
unfolding new_span
place cur ap =
    let span_end = u16 (cur.start_addr + cur.total_count) in
    let joined = cur.probes ++ (mapping_from cur.start_addr ap ∷ []) in
    let probe_end = u16 (ap.probe.addr + ap.probe.count) in
    let new_total = u16 (cur.total_count + ap.probe.count) in
    if ltb ap.probe.addr span_end
    then joins (record cur {
      probes = joined;
      total_count =
          if ltb span_end probe_end then sub16 probe_end cur.start_addr else cur.total_count;
    })
    else if ap.probe.addr == span_end
    then if ltb max_batch_registers new_total
      then starts (new_span ap)
      else joins (record cur { probes = joined; total_count = new_total })
    else starts (new_span ap)

unfoldable pub walk : BatchSpan → List AnnotatedProbe → List BatchSpan
unfolding place
walk cur [] = cur ∷ []
walk cur (ap ∷ aps) = elim (place cur ap) [
  | joins cur' ↦ walk cur' aps
  | starts cur' ↦ cur ∷ walk cur' aps
]

unfoldable pub spans_of : List AnnotatedProbe → List BatchSpan
unfolding walk new_span
spans_of [] = []
spans_of (ap ∷ aps) = walk (new_span ap) aps

-- `sort_by_addr` stands for the call of sort.Slice by ascending address.
unfoldable pub analyze_batch_plan :
    (List AnnotatedProbe → List AnnotatedProbe) → List ProbeGroup → BatchPlan
unfolding collect spans_of
analyze_batch_plan sort_by_addr groups =
    let (real, unbatchable) = collect groups in
    record { spans = spans_of (sort_by_addr real); unbatchable = unbatchable }

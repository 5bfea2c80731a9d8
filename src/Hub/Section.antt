-- ===== src/Hub/Section.antt =====
-- internal/hub/section.go: a section, its subscribers and its read. A client is a number, a context
-- of a read another. `read_cancel` is the context that the read can be cancelled by. The contexts that
-- the section has cancelled are part of the model alone.
use sofar_hyd_diag.Prelude.{
  ℕ, Bool, false, String, Option, none, some, List, [], ◌∷◌, ◌==◌, length, keep, not, any_of,
  if◌then◌else◌,
}
use text.Mathlib.Text.{◌==◌ as same_text}
use sofar_hyd_diag.Register.Probe.{Probe, ProbeGroup, flatten_probe_groups}
use sofar_hyd_diag.Register.Batch.{BatchPlan, analyze_batch_plan}
use sofar_hyd_diag.Register.Batch.Sorting.{AddrSort}
use sofar_hyd_diag.Hub.SpanTracker.{SpanTracker, new_span_tracker, default_degradation_threshold}

pub record Section : Type 0 where
  pub name : String
  pub probes : List Probe
  pub groups : List ProbeGroup
  pub batch_plan : BatchPlan
  pub span_tracker : Option SpanTracker
  pub fault_section : Bool
  pub read_once : Bool
  pub has_read_once : Bool
  pub subscribers : List ℕ
  pub read_cancel : Option ℕ
  pub cancelled_contexts : List ℕ  -- the last one first
  pub reading : Bool

abbrev pub is_member : ℕ → List ℕ → Bool
is_member c = any_of (λ d. d == c)

unfoldable pub new_grouped_section : AddrSort → String → List ProbeGroup → Section
new_grouped_section by name groups = record {
  name = name;
  probes = flatten_probe_groups groups;
  groups = groups;
  batch_plan = analyze_batch_plan by.sort groups;
  span_tracker = some (new_span_tracker default_degradation_threshold);
  fault_section = same_text name "system";
  read_once = false;
  has_read_once = false;
  subscribers = [];
  read_cancel = none;
  cancelled_contexts = [];
  reading = false;
}

unfoldable pub subscriber_count : Section → ℕ
subscriber_count sec = length sec.subscribers

-- A map from clients to true, as the list of its keys.
unfoldable pub add_subscriber : Section → ℕ → Section
add_subscriber sec c =
    if is_member c sec.subscribers then sec else record sec { subscribers = c ∷ sec.subscribers }

unfoldable pub remove_subscriber : Section → ℕ → Section
remove_subscriber sec c = record sec { subscribers = keep (λ d. not (d == c)) sec.subscribers }

-- `s.readCancel()`, if it is not nil.
abbrev pub with_cancelled : Option ℕ → List ℕ → List ℕ
with_cancelled none contexts = contexts
with_cancelled (some context) contexts = context ∷ contexts

unfoldable pub cancel_read : Section → Section
cancel_read sec = record sec {
  read_cancel = none;
  cancelled_contexts = with_cancelled sec.read_cancel sec.cancelled_contexts;
}

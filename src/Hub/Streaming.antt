-- ===== src/Hub/Streaming.antt =====
-- internal/hub/hub_streaming.go: a section read span by span over the broker, with what is sent to
-- the section's subscribers on the way. The goroutine of a read is a function of what the broker
-- and the context of the read answer.
pub mod Answered
pub mod Complete
pub mod Cost
mod Examples
pub mod Truth
use sofar_hyd_diag.Prelude.{
  ℕ, zero, suc, ◌+◌, Bool, true, false, not, ◌&&◌, String, Option, none, some, List, [], ◌∷◌, ◌++◌,
  ◌==◌, if◌then◌else◌,
}
use sofar_hyd_diag.Register.Probe.{Probe, ProbeGroup}
use sofar_hyd_diag.Register.Format.{FloatText, format_value, format_raw_value}
use sofar_hyd_diag.Register.Batch.{ProbeMapping, BatchSpan}
use sofar_hyd_diag.Broker.State.{ReadRequest}
use sofar_hyd_diag.Hub.Extraction.{extract_probe_data}
use sofar_hyd_diag.Hub.Message.{HubMessage, new_register_value}
use sofar_hyd_diag.Hub.SpanTracker.{
  SpanState, normal, degraded, skipped, SpanTracker, state, should_probe, tick, record_success,
  record_failure, record_individual_failure,
}

-- `broker.Result`: the error by its text. A result that was never filled in has no data.
pub data ProbeResult : Type 0 where
  data_bytes : List ℕ → ProbeResult
  fails : String → ProbeResult

-- What a read does, in its order.
pub data Event : Type 0 where
  requested : ℕ → ℕ → Event
  emitted : HubMessage → Event
  checked : Event  -- `readCtx.Err()`
  requested_batch : List ReadRequest → Event
  wrote : ℕ → ℕ → Event
  waited : ℕ → Event  -- milliseconds, or until the context is done

-- What the read meets answers from what happened so far, newest first.
pub record Reader : Type 0 where
  pub read : List Event → ℕ → ℕ → ProbeResult  -- ReadRegisters
  pub read_many : List Event → List ReadRequest → List ProbeResult  -- ReadBatch
  pub write : List Event → ℕ → ℕ → Option String  -- the error of WriteRegister
  pub is_cancelled : List Event → Bool
  pub print_float : FloatText

-- The read on its way: its tracker, `probeResults`, and what it has done.
pub record Stream : Type 0 where
  pub tracker : Option SpanTracker
  pub probe_results : List ProbeResult
  pub trace : List Event

abbrev pub emit : HubMessage → Stream → Stream
emit m st = record st { trace = emitted m ∷ st.trace }

abbrev pub check : Reader → Stream → Bool × Stream
check rd st = (rd.is_cancelled st.trace, record st { trace = checked ∷ st.trace })

abbrev pub request : Reader → ℕ → ℕ → Stream → ProbeResult × Stream
request rd addr count st =
    (rd.read st.trace addr count, record st { trace = requested addr count ∷ st.trace })

-- `if sec.SpanTracker != nil { ... }`
abbrev pub track : (SpanTracker → SpanTracker) → Stream → Stream
track f st = elim st.tracker [ none ↦ st | some t ↦ record st { tracker = some (f t) } ]

-- `addrToIdx[addr]` of probes numbered from `i` on: the last one at an address counts.
unfoldable pub addr_to_idx : List Probe → ℕ → ℕ → Option ℕ
addr_to_idx [] i addr = none
addr_to_idx (p ∷ ps) i addr = elim (addr_to_idx ps (suc i) addr) [
  | some j ↦ some j
  | none ↦ if p.addr == addr then some i else none
]

unfoldable pub set_at : ℕ → ProbeResult → List ProbeResult → List ProbeResult
set_at i r [] = []
set_at zero r (x ∷ xs) = r ∷ xs
set_at (suc i) r (x ∷ xs) = x ∷ set_at i r xs

-- `if idx, ok := addrToIdx[addr]; ok { probeResults[idx] = r }`
unfoldable pub store_result : List Probe → ℕ → ProbeResult → Stream → Stream
unfolding addr_to_idx set_at
store_result probes addr r st = elim (addr_to_idx probes 0 addr) [
  | none ↦ st
  | some i ↦ record st { probe_results = set_at i r st.probe_results }
]

-- The message with a probe's value, from its bytes.
abbrev pub value_message : Reader → String → ProbeMapping → List ℕ → HubMessage
value_message rd section pm bytes =
    new_register_value section pm.group_name pm.probe.name
      (format_value rd.print_float pm.probe bytes) "" pm.probe.addr
      (format_raw_value pm.probe bytes)

abbrev pub error_message : String → ProbeMapping → String → HubMessage
error_message section pm error =
    new_register_value section pm.group_name pm.probe.name [] error pm.probe.addr []

-- One probe of `readSpanIndividualFallbackAccum`, once the context is checked: whether the read of
-- it failed, and the message to send.
unfoldable pub read_individual :
    Reader → String → List Probe → ProbeMapping → Stream → (Bool × HubMessage) × Stream
read_individual rd section probes pm st =
    let (reply, st1) = request rd pm.probe.addr pm.probe.count st in
    elim reply [
      | fails e ↦
          ((true, error_message section pm e), store_result probes pm.probe.addr (fails e) st1)
      | data_bytes bytes ↦ (
        (false, value_message rd section pm bytes),
        store_result probes pm.probe.addr (data_bytes bytes) st1,
      )
    ]

-- `readSpanIndividualFallbackAccum` from some probe of the span on: whether all reads failed.
unfoldable pub read_span_individual :
    Reader → String → List Probe → List ProbeMapping → Bool → Stream → Bool × Stream
read_span_individual rd section probes [] all_failed st = (all_failed, st)
read_span_individual rd section probes (pm ∷ pms) all_failed st =
    let (over, st1) = check rd st in
    let ((failed, message), st2) = read_individual rd section probes pm st1 in
    let (over', st3) = check rd st2 in
    if over
    then (true, st1)
    else if over'
    then (true, st3)
    else read_span_individual rd section probes pms (all_failed && failed) (emit message st3)

-- The probes of a span out of the response to its batch read.
unfoldable pub emit_probes :
    Reader → String → List Probe → List ℕ → List ProbeMapping → Stream → Stream
emit_probes rd section probes bytes [] st = st
emit_probes rd section probes bytes (pm ∷ pms) st = elim (extract_probe_data bytes pm) [
  | none ↦
      emit_probes rd section probes bytes pms (emit (error_message section pm "short response") st)
  | some probe_data ↦ emit_probes rd section probes bytes pms (
      store_result probes pm.probe.addr (data_bytes probe_data)
        (emit (value_message rd section pm probe_data) st))
]

-- What the tracker says of a span: its state, and whether it is to be probed.
abbrev pub tracked : Option SpanTracker → ℕ → SpanState × Bool
tracked none start_addr = (normal, false)
tracked (some t) start_addr = (state t start_addr, should_probe t start_addr)

-- The read of a degraded span probe by probe. As below, the Boolean says whether to go on.
unfoldable pub read_degraded : Reader → String → List Probe → BatchSpan → Stream → Bool × Stream
read_degraded rd section probes span st =
    let (all_failed, st1) = read_span_individual rd section probes span.probes true st in
    let (over, st2) = check rd st1 in
    if over
    then (false, st2)
    else if all_failed
    then (true, track (λ t. (record_individual_failure t span.start_addr).0) st2)
    else (true, track (λ t. record_success t span.start_addr) st2)

-- The batch read of a normal span, or of one that is probed.
unfoldable pub read_batch : Reader → String → List Probe → BatchSpan → Stream → Bool × Stream
read_batch rd section probes span st =
    let (reply, st1) = request rd span.start_addr span.total_count st in
    elim reply [
      | fails e ↦
          let st2 = track (λ t. (record_failure t span.start_addr).0) st1 in
          let (all_failed, st3) = read_span_individual rd section probes span.probes true st2 in
          let (over, st4) = check rd st3 in (not over, st4)
      | data_bytes bytes ↦
          let (over, st2) = check rd (track (λ t. record_success t span.start_addr) st1) in
          if over then (false, st2) else (true, emit_probes rd section probes bytes span.probes st2)
    ]

-- The body of the loop of `readBatchSpans`; false where it returns nil.
unfoldable pub read_span : Reader → String → List Probe → BatchSpan → Stream → Bool × Stream
read_span rd section probes span st =
    let (over, st1) = check rd st in
    let (span_state, probing) = tracked st1.tracker span.start_addr in
    if over
    then (false, st1)
    else if probing
    then read_batch rd section probes span st1
    else elim span_state [
      | skipped ↦ (true, st1)
      | degraded ↦ read_degraded rd section probes span st1
      | normal ↦ read_batch rd section probes span st1
    ]

unfoldable pub read_spans : Reader → String → List Probe → List BatchSpan → Stream → Bool × Stream
read_spans rd section probes [] st = (true, st)
read_spans rd section probes (span ∷ spans) st =
    let (go_on, st1) = read_span rd section probes span st in
    if go_on then read_spans rd section probes spans st1 else (false, st1)

-- As many results with no data as there are probes.
unfoldable pub no_results : List Probe → List ProbeResult
no_results [] = []
no_results (p ∷ ps) = data_bytes [] ∷ no_results ps

-- The read before its first span.
abbrev pub start_stream : List Probe → Option SpanTracker → List Event → Stream
start_stream probes tracker trace = record {
  tracker = tracker;
  probe_results = no_results probes;
  trace = trace;
}

-- `readBatchSpans`: none is nil.
unfoldable pub read_batch_spans :
    Reader
    → String
    → List Probe
    → List BatchSpan
    → Option SpanTracker
    → List Event
    → Option (List ProbeResult) × Stream
read_batch_spans rd section probes spans tracker trace =
    let start = track tick (start_stream probes tracker trace) in
    let (done, st) = read_spans rd section probes spans start in
    (if done then some st.probe_results else none, st)

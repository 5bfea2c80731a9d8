-- ===== src/Hub/Streaming/Examples.antt =====
-- The theorems on a read of a section, at two spans of which the first cannot be read whole.
use sofar_hyd_diag.Prelude.{
  ℕ, ◌+◌, ◌*◌, ◌≡◌, ◌≢◌, refl, inl, inr, false, ◌&&◌, ◌==◌, some, none, List, [], ◌∷◌, All,
  if◌then◌else◌, arith,
}
use sofar_hyd_diag.Register.Probe.{ProbeGroup, probe, group, flatten_probe_groups}
use sofar_hyd_diag.Register.Batch.{
  ProbeMapping, BatchSpan, collect, collect_probes, new_span, place, walk, spans_of,
  analyze_batch_plan,
}
use sofar_hyd_diag.Prelude.Sorting.{insert, insertion_sort}
use sofar_hyd_diag.Register.Batch.Sorting.{by_insertion}
use sofar_hyd_diag.Hub.Extraction.{response}
use sofar_hyd_diag.Hub.SpanTracker.{skipped, new_span_tracker, state}
use sofar_hyd_diag.Hub.Streaming.{ProbeResult, data_bytes, fails, Reader, tracked, read_batch_spans}
use sofar_hyd_diag.Hub.Streaming.Truth.{IsTrue, read_batch_spans-IsTrue}
use sofar_hyd_diag.Hub.Streaming.Answered.{messages, plan_values, Answers}
use sofar_hyd_diag.Hub.Streaming.Complete.{read_batch_spans-messages}

abbrev two_spans : List ProbeGroup
two_spans =
    group "Channel 1" (probe "Current" 0x0605 1 ∷ probe "Voltage" 0x0604 1 ∷ [])
    ∷ group "Channel 2" (probe "Serial" 0x0644 4 ∷ [])
    ∷ []

abbrev held : ℕ → ℕ
held addr = addr * 7 + 3

abbrev answer : ℕ → ℕ → ProbeResult
answer addr count =
    if addr == 0x0604 && count == 2 then fails "timeout" else data_bytes (response held addr count)

abbrev device : Reader
device = record {
  read = λ trace addr count. answer addr count;
  read_many = λ trace reads. [];
  write = λ trace addr value. none;
  is_cancelled = λ trace. false;
  print_float = λ decimals value scale. [];
}

-- What a mapping of the plan's has.
abbrev HasItsBytes : ProbeMapping → Type 0
HasItsBytes pm = pm.byte_length ≡ pm.probe.count * 2

plan-HasItsBytes :
    All
      (λ (s : BatchSpan). All HasItsBytes s.probes)
      (analyze_batch_plan by_insertion.sort two_spans).spans
unfolding analyze_batch_plan collect collect_probes spans_of walk place new_span insertion_sort
    insert
plan-HasItsBytes = ((refl, (refl, tt)), ((refl, tt), tt))

answer-honest :
    (addr count : ℕ) (bytes : List ℕ)
    → answer addr count ≡ data_bytes bytes
    → bytes ≡ response held addr count
answer-honest addr count bytes said = ground arith

read_batch_spans-IsTrue_example :
    All
      (IsTrue device "battery" held HasItsBytes)
      (read_batch_spans device "battery"
        (flatten_probe_groups two_spans)
        (analyze_batch_plan by_insertion.sort two_spans).spans
        (some (new_span_tracker 3))
        []).1.trace
read_batch_spans-IsTrue_example =
    read_batch_spans-IsTrue by_insertion two_spans device "battery" held HasItsBytes
      (some (new_span_tracker 3)) ((omega arith, (omega arith, tt)), ((omega arith, tt), tt))
      (λ trace addr count bytes said. answer-honest addr count bytes said) plan-HasItsBytes

device-Answers : All (Answers device held) (analyze_batch_plan by_insertion.sort two_spans).spans
unfolding analyze_batch_plan collect collect_probes spans_of walk place new_span insertion_sort
    insert
device-Answers = (
  record { whole = λ trace. inl ("timeout", refl); single = (λ trace. refl, (λ trace. refl, tt)) },
  (record { whole = λ trace. inr refl; single = (λ trace. refl, tt) }, tt),
)

none_skipped : (a : ℕ) → (tracked (some (new_span_tracker 3)) a).0 ≢ skipped
unfolding new_span_tracker state
none_skipped a e = cc

read_batch_spans-messages_example :
    let spans = (analyze_batch_plan by_insertion.sort two_spans).spans in
    let r =
      read_batch_spans device "battery"
        (flatten_probe_groups two_spans)
        spans
        (some (new_span_tracker 3))
        [] in
    (r.0 ≢ none) × (messages r.1.trace ≡ plan_values device "battery" held spans)
read_batch_spans-messages_example =
    read_batch_spans-messages by_insertion two_spans device "battery" held
      (some (new_span_tracker 3)) ((omega arith, (omega arith, tt)), ((omega arith, tt), tt))
      (λ trace. refl) none_skipped device-Answers

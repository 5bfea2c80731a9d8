-- ===== src/Hub/Examples.antt =====
-- The theorems on the SpanTracker, at the thresholds that the hub uses.
use sofar_hyd_diag.Prelude.{
  ℕ, ◌+◌, ◌≤◌, ◌≡◌, refl, true, List, [], ◌∷◌, leb, drop, replicate, ◌*◌, some, All, if◌then◌else◌,
  arith,
}
use sofar_hyd_diag.Hub.SpanTracker.{
  normal, degraded, SpanTracker, TrackerOp, failure, individual_failure, ticks, state,
  new_span_tracker, record_success, record_failure, record_individual_failure, tick, is_degraded,
  should_probe, apply_op, run_ops,
}
use sofar_hyd_diag.Hub.SpanTracker.Invariant.{
  Counted, new_span_tracker-IsConsistent, run_ops-failures,
}
use sofar_hyd_diag.Hub.SpanTracker.Recovery.{should_probe_within_interval}
use sofar_hyd_diag.Register.Probe.{ProbeGroup, probe, group}
use sofar_hyd_diag.Register.Batch.{ProbeMapping, BatchSpan, analyze_batch_plan}
use sofar_hyd_diag.Register.Batch.Sorting.{by_insertion}
use sofar_hyd_diag.Register.Batch.Limit.{WithinLimit}
use sofar_hyd_diag.Hub.Sections.{builtin_sections, clamp_pv_channels, builtin_sections-WithinLimit}
use sofar_hyd_diag.Hub.Extraction.{
  extract_probe_data, response, extract_probe_data-analyze_batch_plan,
}

-- A span that failed three times, and four read cycles.
abbrev sample_ops : List TrackerOp
sample_ops =
    failure 0x0604
    ∷ failure 0x0604
    ∷ ticks
    ∷ ticks
    ∷ failure 0x0604
    ∷ ticks
    ∷ ticks
    ∷ individual_failure 0x0644
    ∷ []

abbrev failing : SpanTracker
failing = run_ops (new_span_tracker 3) sample_ops

new_span_tracker-IsConsistent_example :
    Counted 3 (state failing 0x0604) (failing.fail_counts 0x0604) (failing.indiv_fails 0x0604)
new_span_tracker-IsConsistent_example =
    new_span_tracker-IsConsistent 3 sample_ops (omega arith) 0x0604

run_ops-failures_example :
    state (run_ops (new_span_tracker 3) (replicate 3 (failure 0x0604))) 0x0604
    ≡ (if leb 3 3 then degraded else normal)
unfolding new_span_tracker
run_ops-failures_example = run_ops-failures 3 (new_span_tracker 3) 0x0604 refl (omega arith)

should_probe_within_interval_example :
    (n : ℕ) × (1 ≤ n)
    × (n ≤ failing.probe_interval)
    × (should_probe (run_ops failing (replicate n ticks)) 0x0604 ≡ true)
unfolding state run_ops apply_op record_failure record_success is_degraded new_span_tracker
    record_individual_failure tick
should_probe_within_interval_example =
    should_probe_within_interval failing 0x0604 (omega arith) (λ e. cc)

-- Two neighbouring probes, the second in front, and one apart.
abbrev sample_groups : List ProbeGroup
sample_groups =
    group "Channel 1" (probe "Current" 0x0605 1 ∷ probe "Voltage" 0x0604 1 ∷ [])
    ∷ group "Channel 2" (probe "Serial" 0x0644 4 ∷ [])
    ∷ []

abbrev sample_memory : ℕ → ℕ
sample_memory addr = addr * 7 + 3

extract_probe_data-analyze_batch_plan_example :
    All
      (λ (s : BatchSpan).
        All
          (λ (m : ProbeMapping).
            extract_probe_data (response sample_memory s.start_addr s.total_count) m
            ≡ some (response sample_memory m.probe.addr m.probe.count))
          s.probes)
      (analyze_batch_plan by_insertion.sort sample_groups).spans
extract_probe_data-analyze_batch_plan_example =
    extract_probe_data-analyze_batch_plan by_insertion sample_groups sample_memory
      ((omega arith, (omega arith, tt)), ((omega arith, tt), tt))

builtin_sections-WithinLimit_example :
    All
      (λ (gs : List ProbeGroup). All WithinLimit (analyze_batch_plan by_insertion.sort gs).spans)
      (drop 1 (builtin_sections (clamp_pv_channels 4)))
builtin_sections-WithinLimit_example = builtin_sections-WithinLimit by_insertion 4

-- ===== src/Register/Examples.antt =====
-- The theorems on the register tables and the batch plan, at the battery section and others.
use mathlib.Core.List.{Perm}
use sofar_hyd_diag.Prelude.{
  ℕ, ◌<◌, ◌≡◌, refl, inl, inr, some, List, [], ◌∷◌, ◌++◌, map, All, keep, ◌==◌, if◌then◌else◌,
  arith,
}
use sofar_hyd_diag.Register.Probe.{Probe, ProbeGroup, probe, group}
use sofar_hyd_diag.Register.Batch.{
  AnnotatedProbe, BatchSpan, max_batch_registers, collect, collect_probes, new_span, place, walk,
  spans_of, analyze_batch_plan,
}
use sofar_hyd_diag.Prelude.Sorting.{insert, insertion_sort}
use sofar_hyd_diag.Register.Batch.Sorting.{by_insertion}
use sofar_hyd_diag.Register.Batch.Layout.{IsLaidOut, analyze_batch_plan-IsLaidOut}
use sofar_hyd_diag.Register.Batch.Complete.{
  annotated, span_probes, all_probes, analyze_batch_plan-perm,
}
use sofar_hyd_diag.Register.Batch.Limit.{
  WithinLimit, analyze_batch_plan-WithinLimit, spans_of_overlap,
}
use sofar_hyd_diag.Register.Battery.Addressing.{encode_pack_query-injective}
use sofar_hyd_diag.Register.Fault.{fault_table, bit_set, decode_faults}
use sofar_hyd_diag.Register.Fault.Decoding.{decode_faults-active}

-- A header, two neighbouring registers given in descending order, one apart, and a gap.
abbrev sample_groups : List ProbeGroup
sample_groups =
    group "Limits" (probe "Header" 0 0 ∷ probe "Discharge" 0x0645 1 ∷ probe "Charge" 0x0644 1 ∷ [])
    ∷ group "Totals" (probe "Serial" 0x0667 4 ∷ probe "Far" 0x0700 60 ∷ [])
    ∷ []

analyze_batch_plan-IsLaidOut_example :
    All IsLaidOut (analyze_batch_plan by_insertion.sort sample_groups).spans
analyze_batch_plan-IsLaidOut_example =
    analyze_batch_plan-IsLaidOut by_insertion sample_groups
      ((omega arith, (omega arith, (omega arith, tt))), ((omega arith, (omega arith, tt)), tt))

analyze_batch_plan-perm_example :
    let plan = analyze_batch_plan by_insertion.sort sample_groups in
    Perm (map annotated plan.unbatchable ++ span_probes plan.spans) (all_probes sample_groups)
analyze_batch_plan-perm_example = analyze_batch_plan-perm by_insertion sample_groups

analyze_batch_plan-WithinLimit_example :
    All WithinLimit (analyze_batch_plan by_insertion.sort sample_groups).spans
unfolding collect collect_probes insertion_sort insert
analyze_batch_plan-WithinLimit_example =
    analyze_batch_plan-WithinLimit by_insertion sample_groups
      ((omega arith, (omega arith, (omega arith, tt))), ((omega arith, (omega arith, tt)), tt))
      (omega arith, (omega arith, (omega arith, (omega arith, tt))))
      (
        (inr (omega arith), (inl (omega arith), (inl (omega arith), tt))),
        ((inl (omega arith), (inl (omega arith), tt)), ((inl (omega arith), tt), (tt, tt))),
      )

-- The plan of the sample: three spans.
sample_plan :
    map
      (λ (s : BatchSpan). s.start_addr ∷ s.total_count ∷ [])
      (analyze_batch_plan by_insertion.sort sample_groups).spans
    ≡ (0x0644 ∷ 2 ∷ []) ∷ (0x0667 ∷ 4 ∷ []) ∷ (0x0700 ∷ 60 ∷ []) ∷ []
unfolding analyze_batch_plan collect collect_probes spans_of walk place new_span insertion_sort
    insert
sample_plan = refl

abbrev annotate : Probe → AnnotatedProbe
annotate p = record { probe = p; group_name = "Overlap" }

spans_of_overlap_example :
    (s : BatchSpan) × (spans_of (annotate (probe "A" 100 50) ∷ annotate (probe "B" 149 50) ∷ [])
      ≡ s ∷ [])
    × (max_batch_registers < s.total_count)
spans_of_overlap_example =
    spans_of_overlap (annotate (probe "A" 100 50)) (annotate (probe "B" 149 50))
      (omega arith, omega arith) (omega arith, omega arith) (omega arith) (omega arith)
      (omega arith)

encode_pack_query-injective_example : (◌≡◌ {A = ℕ} 2 2) × (◌≡◌ {A = ℕ} 2 2) × (◌≡◌ {A = ℕ} 10 10)
encode_pack_query-injective_example =
    encode_pack_query-injective 2 2 10 2 2 10 2 (omega arith) (omega arith) (omega arith)
      (omega arith) (omega arith) (omega arith) (omega arith) (omega arith) (omega arith)
      (omega arith) (omega arith) (omega arith) refl

-- Fault register 0x0405 has its lowest bit set, all others are 0.
abbrev sample_registers : ℕ → ℕ
sample_registers a = if a == 0x0405 then 1 else 0

decode_faults-active_example :
    decode_faults (λ a. some (sample_registers a))
    ≡ map (λ fb. fb.desc) (keep (λ fb. bit_set (sample_registers fb.addr) fb.bit) fault_table)
decode_faults-active_example =
    decode_faults-active (λ a. some (sample_registers a)) sample_registers (λ a fetched. refl)

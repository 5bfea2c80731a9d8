-- ===== src/Register/Batch/Limit.antt =====
-- The limit of 60 registers a read (internal/register/batch.go).
use sofar_hyd_diag.Prelude.{ℕ, ◌+◌, ◌≤◌, ◌<◌, ◌≡◌, inl, inr, List, [], ◌∷◌, All, All-perm, arith}
use sofar_hyd_diag.Register.Probe.{ProbeGroup}
use sofar_hyd_diag.Register.Batch.{
  AnnotatedProbe, BatchSpan, max_batch_registers, new_span, walk, spans_of, collect,
  analyze_batch_plan,
}
use sofar_hyd_diag.Register.Batch.Placing.{Fits, span_end, probe_end, extended, place_cases}
use sofar_hyd_diag.Register.Batch.Apart.{Disjoint, PairsApart, PairsApart-perm, Ascending-Disjoint}
use sofar_hyd_diag.Register.Batch.Layout.{GroupsInRange, collect-Fits}
use sofar_hyd_diag.Register.Batch.Sorting.{AddrSort}

abbrev pub WithinLimit : BatchSpan → Type 0
WithinLimit s = s.total_count ≤ max_batch_registers

abbrev pub ShortProbe : AnnotatedProbe → Type 0
ShortProbe ap = ap.probe.count ≤ max_batch_registers

Disjoint-mono :
    {lo lo' : ℕ} → lo ≤ lo' → (aps : List AnnotatedProbe) → Disjoint lo' aps → Disjoint lo aps
Disjoint-mono h [] d = tt
Disjoint-mono h (ap ∷ aps) d = (omega arith, d.1)

walk-WithinLimit :
    (cur : BatchSpan) (aps : List AnnotatedProbe)
    → span_end cur < 65536
    → WithinLimit cur
    → All Fits aps
    → All ShortProbe aps
    → Disjoint (span_end cur) aps
    → All WithinLimit (walk cur aps)
unfolding walk
walk-WithinLimit cur [] e l f s d = (l, tt)
walk-WithinLimit cur (ap ∷ aps) e l f s d = elim (place_cases cur ap f.0 e (omega arith)) [
  | inl (total, p, x) ↦
      rw (p, walk)
        (walk-WithinLimit (extended cur ap total) aps (omega arith) (x.limited d.0) f.1 s.1
          (Disjoint-mono (omega arith) aps d.1))
  | inr (p, apart) ↦
      rw (p, walk)
        (
          l,
          walk-WithinLimit (new_span ap) aps (unfold new_span in f.0.1) (unfold new_span in s.0) f.1
              s.1 (unfold new_span in d.1),
        )
]

pub spans_of-WithinLimit :
    (aps : List AnnotatedProbe)
    → All Fits aps
    → All ShortProbe aps
    → Disjoint 0 aps
    → All WithinLimit (spans_of aps)
unfolding spans_of
spans_of-WithinLimit [] f s d = tt
spans_of-WithinLimit (ap ∷ aps) f s d =
    walk-WithinLimit (new_span ap) aps (unfold new_span in f.0.1) (unfold new_span in s.0) f.1 s.1
      (unfold new_span in d.1)

-- Whatever sort is used, if every probe ends before register 65535 and has at most 60 registers, and
-- no two of them share a register, no span of the plan has more than 60 registers.
pub analyze_batch_plan-WithinLimit :
    (by : AddrSort) (gs : List ProbeGroup)
    → GroupsInRange gs
    → All ShortProbe (collect gs).0
    → PairsApart (collect gs).0
    → All WithinLimit (analyze_batch_plan by.sort gs).spans
unfolding analyze_batch_plan
analyze_batch_plan-WithinLimit by gs h s d =
    let fits = All-perm Fits (by.sort-perm (collect gs).0) (collect-Fits gs h) in
    spans_of-WithinLimit (by.sort (collect gs).0) fits
      (All-perm ShortProbe (by.sort-perm (collect gs).0) s)
      (Ascending-Disjoint 0 (by.sort (collect gs).0) fits (by.sort-Ascends (collect gs).0)
        (PairsApart-perm (by.sort-perm (collect gs).0) d))

-- The limit does not bind probes that overlap: of two sorted probes, the second of which starts
-- inside the first and ends more than 60 registers from the first's start, the plan is one span
-- that is over the limit.
pub spans_of_overlap :
    (p q : AnnotatedProbe)
    → Fits p
    → Fits q
    → p.probe.addr ≤ q.probe.addr
    → q.probe.addr < probe_end p
    → p.probe.addr + max_batch_registers < probe_end q
    → (s : BatchSpan) × (spans_of (p ∷ q ∷ []) ≡ s ∷ []) × (max_batch_registers < s.total_count)
unfolding spans_of walk
spans_of_overlap p q f g h k over =
    elim (place_cases (new_span p) q g (unfold new_span in f.1) (unfold new_span in h)) [
      | inl (total, e, x) ↦ (
        extended (new_span p) q total,
        rw (e, walk),
        unfold new_span in omega (arith, x.in_range),
      )
      | inr (e, apart) ↦ absurd (unfold new_span in omega (arith, apart.0))
    ]

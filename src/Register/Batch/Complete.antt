-- ===== src/Register/Batch/Complete.antt =====
-- Every probe of a section is in its batch plan, once (internal/register/batch.go).
use mathlib.Core.List.{Perm, append_assoc, map-append, perm_middle, perm_append_comm}
use mathlib.Core.List.Perm
use sofar_hyd_diag.Prelude.{
  String, ◌≡◌, refl, ap, ◌∙◌, inl, inr, Bool-cases, List, [], ◌∷◌, ◌++◌, map, ◌==◌,
}
use sofar_hyd_diag.Register.Probe.{Probe, ProbeGroup}
use sofar_hyd_diag.Register.Batch.{
  AnnotatedProbe, ProbeMapping, BatchSpan, mapping_from, new_span, walk, spans_of, collect_probes,
  collect, analyze_batch_plan,
}
use sofar_hyd_diag.Register.Batch.Sorting.{AddrSort}
use sofar_hyd_diag.Register.Batch.Placing.{extended, place_keeps}

abbrev pub annotated : ProbeMapping → AnnotatedProbe
annotated m = record { probe = m.probe; group_name = m.group_name }

-- The probes of the spans, in plan order.
abbrev pub span_probes : List BatchSpan → List AnnotatedProbe
span_probes [] = []
span_probes (s ∷ ss) = map annotated s.probes ++ span_probes ss

abbrev pub group_probes : String → List Probe → List AnnotatedProbe
group_probes name [] = []
group_probes name (p ∷ ps) = record { probe = p; group_name = name } ∷ group_probes name ps

abbrev pub all_probes : List ProbeGroup → List AnnotatedProbe
all_probes [] = []
all_probes (g ∷ gs) = group_probes g.name g.probes ++ all_probes gs

span_probes-walk :
    (cur : BatchSpan) (aps : List AnnotatedProbe)
    → span_probes (walk cur aps) ≡ map annotated cur.probes ++ aps
unfolding walk
span_probes-walk cur [] = refl
span_probes-walk cur (p ∷ aps) = elim (place_keeps cur p) [
  | inl (total, e) ↦
      rw (e, walk)
        (span_probes-walk (extended cur p total) aps
          ∙ rw map-append (
              append_assoc (map annotated cur.probes)
                (map annotated (mapping_from cur.start_addr p ∷ [])) aps))
  | inr e ↦
      rw (e, walk)
        (ap (λ rest. map annotated cur.probes ++ rest)
          (span_probes-walk (new_span p) aps ∙ unfold new_span in refl))
]

span_probes-spans_of : (aps : List AnnotatedProbe) → span_probes (spans_of aps) ≡ aps
unfolding spans_of
span_probes-spans_of [] = refl
span_probes-spans_of (p ∷ aps) = span_probes-walk (new_span p) aps ∙ unfold new_span in refl

collect_probes-perm :
    (name : String) (ps : List Probe)
    → Perm
        (map annotated (collect_probes name ps).1 ++ (collect_probes name ps).0)
        (group_probes name ps)
unfolding collect_probes
collect_probes-perm name [] = Perm.nil
collect_probes-perm name (p ∷ ps) = elim (Bool-cases (p.count == 0)) [
  | inl synthetic ↦ rw synthetic (Perm.cons _ (collect_probes-perm name ps))
  | inr real ↦ rw real (Perm.trans (perm_middle _ _) (Perm.cons _ (collect_probes-perm name ps)))
]

-- Two pairs of lists joined crosswise.
append_cross {ℓ} :
    {A : Type ℓ} (a b c d : List A) → Perm ((a ++ b) ++ (c ++ d)) ((a ++ c) ++ (b ++ d))
append_cross a b c d =
    rw (append_assoc a b (c ++ d), append_assoc a c (b ++ d))
      (Perm.append_left a (
        rw (← append_assoc b c d, ← append_assoc c b d)
          (Perm.append_right d (perm_append_comm b c))))

collect-perm :
    (gs : List ProbeGroup) → Perm (map annotated (collect gs).1 ++ (collect gs).0) (all_probes gs)
unfolding collect
collect-perm [] = Perm.nil
collect-perm (g ∷ gs) = rw map-append (
    Perm.trans
      (append_cross (map annotated (collect_probes g.name g.probes).1)
        (map annotated (collect gs).1) (collect_probes g.name g.probes).0 (collect gs).0)
      (Perm.append (collect_probes-perm g.name g.probes) (collect-perm gs)))

-- Whatever sort is used, the probes without registers and the probes of the spans, each with its
-- group's name, are together a rearrangement of the probes of the section's groups: none is lost
-- and none is there twice.
pub analyze_batch_plan-perm :
    (by : AddrSort) (gs : List ProbeGroup)
    → let plan = analyze_batch_plan by.sort gs in
      Perm (map annotated plan.unbatchable ++ span_probes plan.spans) (all_probes gs)
unfolding analyze_batch_plan
analyze_batch_plan-perm by gs =
    rw (span_probes-spans_of (by.sort (collect gs).0))
      (Perm.trans (Perm.append_left _ ∣ by.sort-perm (collect gs).0 ∣₁) (collect-perm gs))

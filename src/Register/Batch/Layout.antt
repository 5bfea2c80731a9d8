-- ===== src/Register/Batch/Layout.antt =====
-- Where the probes lie in the spans of internal/register/batch.go.
use sofar_hyd_diag.Prelude.{
  ℕ, ◌+◌, ◌-◌, ◌*◌, ◌≤◌, ◌<◌, ◌≡◌, String, inl, inr, ◌⊎◌, List, [], ◌∷◌, ◌++◌, All, All-append,
  All-mono, All-perm, arith,
}
use native.Mathlib.Decide.{dec_lt}
use sofar_hyd_diag.Register.Probe.{Probe, ProbeGroup}
use sofar_hyd_diag.Register.Batch.{
  AnnotatedProbe, ProbeMapping, BatchSpan, mapping_from, new_span, walk, spans_of, collect_probes,
  collect, analyze_batch_plan,
}
use sofar_hyd_diag.Register.Batch.Placing.{Fits, extended, IsExtension, place_cases}
use sofar_hyd_diag.Register.Batch.Sorting.{AddrSort, Ascending, Ascending-mono}

-- A mapping names the bytes of its probe's registers in a response that begins at `start` and
-- holds `total` registers.
pub record IsPlaced (start total : ℕ) (m : ProbeMapping) : Type 0 where
  pub from_start : start ≤ m.probe.addr
  pub to_end : m.probe.addr + m.probe.count ≤ start + total
  pub offset : m.byte_offset ≡ 2 * (m.probe.addr - start)
  pub bytes : m.byte_length ≡ 2 * m.probe.count

-- Some probe of the list reads the register at `a`.
abbrev pub Covers : ℕ → List ProbeMapping → Type 0
Covers a [] = ⊥
Covers a (m ∷ ms) = ((m.probe.addr ≤ a) × (a < m.probe.addr + m.probe.count)) ⊎ Covers a ms

pub record IsLaidOut (s : BatchSpan) : Type 0 where
  pub fits : s.start_addr + s.total_count < 65536
  pub some_register : 0 < s.total_count
  pub placed : All (IsPlaced s.start_addr s.total_count) s.probes
  pub no_gap : (a : ℕ) → s.start_addr ≤ a → a < s.start_addr + s.total_count → Covers a s.probes

Covers-append_left : (a : ℕ) (ms ns : List ProbeMapping) → Covers a ms → Covers a (ms ++ ns)
Covers-append_left a [] ns h = absurd h
Covers-append_left a (m ∷ ms) ns (inl h) = inl h
Covers-append_left a (m ∷ ms) ns (inr h) = inr (Covers-append_left a ms ns h)

Covers-append_last :
    (a : ℕ) (ms : List ProbeMapping) (n : ProbeMapping)
    → n.probe.addr ≤ a
    → a < n.probe.addr + n.probe.count
    → Covers a (ms ++ (n ∷ []))
Covers-append_last a [] n h k = inl (h, k)
Covers-append_last a (m ∷ ms) n h k = inr (Covers-append_last a ms n h k)

IsPlaced-mono :
    (start t t' : ℕ) (m : ProbeMapping) → t ≤ t' → IsPlaced start t m → IsPlaced start t' m
IsPlaced-mono start t t' m h p = record {
  from_start = p.from_start;
  to_end = omega arith;
  offset = p.offset;
  bytes = p.bytes;
}

new_span-IsLaidOut : (ap : AnnotatedProbe) → Fits ap → IsLaidOut (new_span ap)
unfolding new_span
new_span-IsLaidOut ap h = record {
  fits = h.1;
  some_register = h.0;
  placed = (
    record {
      from_start = omega arith;
      to_end = omega arith;
      offset = omega arith;
      bytes = omega arith;
    },
    tt,
  );
  no_gap = λ a lo hi. inl (lo, hi);
}

extended-IsLaidOut :
    (s : BatchSpan) (ap : AnnotatedProbe) (total : ℕ)
    → IsLaidOut s
    → Fits ap
    → s.start_addr ≤ ap.probe.addr
    → IsExtension s ap total
    → IsLaidOut (extended s ap total)
extended-IsLaidOut s ap total l f from x = record {
  fits = omega arith;
  some_register = omega (arith, l.some_register);
  placed =
      All-append _ s.probes _
        (All-mono (λ m p. IsPlaced-mono s.start_addr s.total_count total m x.more p) s.probes
          l.placed)
        (
          record {
            from_start = from;
            to_end = x.in_range;
            offset = omega arith;
            bytes = omega arith;
          },
          tt,
        );
  no_gap = λ a lo hi. elim (dec_lt a (s.start_addr + s.total_count)) [
    | yes inside ↦ Covers-append_left a s.probes _ (l.no_gap a lo inside)
    | no beyond ↦
        Covers-append_last a s.probes (mapping_from s.start_addr ap) (omega arith) (omega arith)
  ];
}

pub walk-IsLaidOut :
    (cur : BatchSpan) (aps : List AnnotatedProbe)
    → IsLaidOut cur
    → All Fits aps
    → Ascending cur.start_addr aps
    → All IsLaidOut (walk cur aps)
unfolding walk
walk-IsLaidOut cur [] l f asc = (l, tt)
walk-IsLaidOut cur (ap ∷ aps) l f asc = elim (place_cases cur ap f.0 l.fits asc.0) [
  | inl (total, e, x) ↦
      rw (e, walk)
        (walk-IsLaidOut (extended cur ap total) aps (extended-IsLaidOut cur ap total l f.0 asc.0 x)
          f.1 (Ascending-mono asc.0 aps asc.1))
  | inr (e, apart) ↦
      rw (e, walk)
        (
          l,
          walk-IsLaidOut (new_span ap) aps (new_span-IsLaidOut ap f.0) f.1
              (unfold new_span in asc.1),
        )
]

pub spans_of-IsLaidOut :
    (aps : List AnnotatedProbe) → All Fits aps → Ascending 0 aps → All IsLaidOut (spans_of aps)
unfolding spans_of
spans_of-IsLaidOut [] f asc = tt
spans_of-IsLaidOut (ap ∷ aps) f asc =
    walk-IsLaidOut (new_span ap) aps (new_span-IsLaidOut ap f.0) f.1 (unfold new_span in asc.1)

-- The registers of a probe end below 65536.
abbrev pub EndsInRange : Probe → Type 0
EndsInRange p = p.addr + p.count < 65536

abbrev pub GroupsInRange : List ProbeGroup → Type 0
GroupsInRange gs = All (λ (g : ProbeGroup). All EndsInRange g.probes) gs

collect_probes-Fits :
    (name : String) (ps : List Probe) → All EndsInRange ps → All Fits (collect_probes name ps).0
unfolding collect_probes
collect_probes-Fits name [] h = tt
collect_probes-Fits name (p ∷ ps) h = ground (arith, collect_probes-Fits name ps h.1)

pub collect-Fits : (gs : List ProbeGroup) → GroupsInRange gs → All Fits (collect gs).0
unfolding collect
collect-Fits [] h = tt
collect-Fits (g ∷ gs) h =
    All-append Fits (collect_probes g.name g.probes).0 (collect gs).0
      (collect_probes-Fits g.name g.probes h.0) (collect-Fits gs h.1)

-- Whatever sort is used, if every probe ends before register 65535, every span of the plan of a
-- section starts and ends at probes, has no gap between them, and every mapping in it gives the
-- place of its probe's bytes in the response to a read of the whole span.
pub analyze_batch_plan-IsLaidOut :
    (by : AddrSort) (gs : List ProbeGroup)
    → GroupsInRange gs
    → All IsLaidOut (analyze_batch_plan by.sort gs).spans
unfolding analyze_batch_plan
analyze_batch_plan-IsLaidOut by gs h =
    spans_of-IsLaidOut (by.sort (collect gs).0)
      (All-perm Fits (by.sort-perm (collect gs).0) (collect-Fits gs h))
      (by.sort-Ascends (collect gs).0)

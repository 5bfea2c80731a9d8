-- ===== src/Register/Batch/Placing.antt =====
-- The body of the second loop of internal/register/batch.go, with its uint16 arithmetic resolved.
use sofar_hyd_diag.Prelude.{
  ℕ, ◌+◌, ◌≤◌, ◌<◌, ◌≡◌, inl, inr, ◌⊎◌, Bool-cases, [], ◌∷◌, ◌++◌, ltb, ◌==◌, if◌then◌else◌, u16,
  sub16, arith,
}
use sofar_hyd_diag.Register.Batch.{
  AnnotatedProbe, BatchSpan, joins, starts, max_batch_registers, mapping_from, new_span, place,
}

-- The registers of a probe end below 65536, so uint16 sums do not wrap.
abbrev pub Fits : AnnotatedProbe → Type 0
Fits ap = (0 < ap.probe.count) × (ap.probe.addr + ap.probe.count < 65536)

abbrev pub span_end : BatchSpan → ℕ
span_end s = s.start_addr + s.total_count

abbrev pub probe_end : AnnotatedProbe → ℕ
probe_end ap = ap.probe.addr + ap.probe.count

-- The current span with one more probe, and `total` registers.
abbrev pub extended : BatchSpan → AnnotatedProbe → ℕ → BatchSpan
extended cur ap total = record cur {
  total_count = total;
  probes = cur.probes ++ (mapping_from cur.start_addr ap ∷ []);
}

pub record IsExtension (cur : BatchSpan) (ap : AnnotatedProbe) (total : ℕ) : Type 0 where
  pub near : ap.probe.addr ≤ span_end cur
  pub more : cur.total_count ≤ total
  pub in_range : probe_end ap ≤ cur.start_addr + total
  pub exact : (total ≡ cur.total_count) ⊎ (cur.start_addr + total ≡ probe_end ap)
  pub limited : span_end cur ≤ ap.probe.addr → total ≤ max_batch_registers

-- A probe behind the span, or one that fits no more.
abbrev pub IsApart : BatchSpan → AnnotatedProbe → Type 0
IsApart cur ap =
    (span_end cur ≤ ap.probe.addr)
    × ((span_end cur < ap.probe.addr) ⊎ (max_batch_registers < cur.total_count + ap.probe.count))

-- The registers of the span after a probe that starts inside it.
abbrev overlapping : BatchSpan → AnnotatedProbe → ℕ
overlapping cur ap =
    if ltb (u16 (span_end cur)) (u16 (probe_end ap))
    then sub16 (u16 (probe_end ap)) cur.start_addr
    else cur.total_count

module _ (cur : BatchSpan) (ap : AnnotatedProbe) where
  overlapping-IsExtension :
      Fits ap
      → span_end cur < 65536
      → cur.start_addr ≤ ap.probe.addr
      → ap.probe.addr < span_end cur
      → IsExtension cur ap (overlapping cur ap)
  overlapping-IsExtension f e from h = ground arith

  pub place_cases :
      Fits ap
      → span_end cur < 65536
      → cur.start_addr ≤ ap.probe.addr
      → ((total : ℕ) × (place cur ap ≡ joins (extended cur ap total)) × IsExtension cur ap total)
        ⊎ ((place cur ap ≡ starts (new_span ap)) × IsApart cur ap)
  unfolding place
  place_cases f e from = elim (Bool-cases (ltb ap.probe.addr (u16 (span_end cur)))) [
    | inl inside ↦
        inl (overlapping cur ap, rw inside, overlapping-IsExtension f e from (ground arith))
    | inr outside ↦ elim (Bool-cases (ap.probe.addr == u16 (span_end cur))) [
      | inl contiguous ↦
          elim (Bool-cases (ltb max_batch_registers (u16 (cur.total_count + ap.probe.count)))) [
            | inl full ↦ inr (rw (outside, contiguous, full), (ground arith, inr (ground arith)))
            | inr room ↦ inl (
              u16 (cur.total_count + ap.probe.count),
              rw (outside, contiguous, room),
              ground arith,
            )
          ]
      | inr gap ↦ inr (rw (outside, gap), (ground arith, inl (ground arith)))
    ]
  ]

  -- The probes of the spans depend on no arithmetic.
  pub place_keeps :
      ((total : ℕ) × (place cur ap ≡ joins (extended cur ap total)))
      ⊎ (place cur ap ≡ starts (new_span ap))
  unfolding place
  place_keeps = elim (Bool-cases (ltb ap.probe.addr (u16 (span_end cur)))) [
    | inl inside ↦ inl (overlapping cur ap, rw inside)
    | inr outside ↦ elim (Bool-cases (ap.probe.addr == u16 (span_end cur))) [
      | inl contiguous ↦
          elim (Bool-cases (ltb max_batch_registers (u16 (cur.total_count + ap.probe.count)))) [
            | inl full ↦ inr (rw (outside, contiguous, full))
            | inr room ↦
                inl (u16 (cur.total_count + ap.probe.count), rw (outside, contiguous, room))
          ]
      | inr gap ↦ inr (rw (outside, gap))
    ]
  ]

-- ===== src/Hub/Streaming/Truth.antt =====
-- What a read of a section (internal/hub/hub_streaming.go) shows is what the device holds.
use sofar_hyd_diag.Prelude.{
  ℕ, ◌≡◌, refl, sym, subst, ◌⊎◌, inl, inr, Bool, true, false, ◌&&◌, String, Option, some, List, [],
  ◌∷◌, if◌then◌else◌, All, arith,
}
use sofar_hyd_diag.Register.Probe.{Probe, ProbeGroup, flatten_probe_groups}
use sofar_hyd_diag.Register.Batch.{ProbeMapping, BatchSpan}
use sofar_hyd_diag.Register.Batch.{analyze_batch_plan}
use sofar_hyd_diag.Register.Batch.Layout.{GroupsInRange}
use sofar_hyd_diag.Register.Batch.Sorting.{AddrSort}
use sofar_hyd_diag.Hub.Extraction.{
  extract_probe_data, response, extract_probe_data-analyze_batch_plan,
}
use sofar_hyd_diag.Hub.SpanTracker.{
  SpanState, normal, degraded, skipped, SpanTracker, record_success, record_failure, tick,
}
use sofar_hyd_diag.Hub.Streaming.{
  ProbeResult, data_bytes, fails, Event, emitted, Reader, Stream, emit, check, request, track,
  store_result, value_message, error_message, read_individual, read_span_individual, emit_probes,
  tracked, read_degraded, read_batch, read_span, read_spans, read_batch_spans, start_stream,
}

-- What the reader says the device holds is what it holds.
abbrev pub IsHonest : Reader → (ℕ → ℕ) → Type 0
IsHonest rd memory =
    (trace : List Event) (addr count : ℕ) (bytes : List ℕ)
    → rd.read trace addr count ≡ data_bytes bytes
    → bytes ≡ response memory addr count

-- A mapping gives its probe's bytes out of a batch read of the span.
abbrev pub IsSliced : (ℕ → ℕ) → BatchSpan → ProbeMapping → Type 0
IsSliced memory span pm =
    extract_probe_data (response memory span.start_addr span.total_count) pm
    ≡ some (response memory pm.probe.addr pm.probe.count)

pub ProbeResult-cases :
    (r : ProbeResult) → ((e : String) × (r ≡ fails e)) ⊎ ((bytes : List ℕ) × (r ≡ data_bytes bytes))
ProbeResult-cases (fails e) = inl (e, refl)
ProbeResult-cases (data_bytes bytes) = inr (bytes, refl)

module _ (rd : Reader) (section : String) (memory : ℕ → ℕ) (P : ProbeMapping → Type 0) where
  -- A message about a mapping with P: the value of its own registers, or an error.
  abbrev pub IsTrue : Event → Type 0
  IsTrue (emitted m) =
      (pm : ProbeMapping) × P pm
      × ((m ≡ value_message rd section pm (response memory pm.probe.addr pm.probe.count))
          ⊎ ((e : String) × (m ≡ error_message section pm e)))
  IsTrue _ = Unit {0}

  abbrev AllTrue : Stream → Type 0
  AllTrue st = All IsTrue st.trace

  store_result-trace :
      (probes : List Probe) (addr : ℕ) (r : ProbeResult) (st : Stream)
      → (store_result probes addr r st).trace ≡ st.trace
  unfolding store_result
  store_result-trace probes addr r st = ground arith

  both :
      (b : Bool) (x y : Bool × Stream) → AllTrue x.1 → AllTrue y.1 → AllTrue (if b then x else y).1
  both true x y px py = px
  both false x y px py = py

  by_state :
      (s : SpanState) (x y z : Bool × Stream)
      → AllTrue x.1
      → AllTrue y.1
      → AllTrue z.1
      → AllTrue (elim s as (λ _. Bool × Stream) [ normal ↦ x | degraded ↦ y | skipped ↦ z ]).1
  by_state normal x y z px py pz = px
  by_state degraded x y z px py pz = py
  by_state skipped x y z px py pz = pz

  track-trace : (f : SpanTracker → SpanTracker) (st : Stream) → (track f st).trace ≡ st.trace
  track-trace f st = ground arith

  track-AllTrue : (f : SpanTracker → SpanTracker) (st : Stream) → AllTrue st → AllTrue (track f st)
  track-AllTrue f st all = subst (All IsTrue) (sym (track-trace f st)) all

  read_individual-AllTrue :
      (probes : List Probe) (pm : ProbeMapping) (st : Stream)
      → IsHonest rd memory
      → P pm
      → AllTrue st
      → IsTrue (emitted (read_individual rd section probes pm st).0.1)
        × AllTrue (read_individual rd section probes pm st).1
  unfolding read_individual
  read_individual-AllTrue probes pm st honest here all =
      elim (ProbeResult-cases (rd.read st.trace pm.probe.addr pm.probe.count)) [
        | inl (e, h) ↦
            rw (h, read_individual, store_result-trace) ((pm, here, inr (e, refl)), (tt, all))
        | inr (bytes, h) ↦
            rw (h, read_individual, store_result-trace, honest st.trace _ _ bytes h)
              ((pm, here, inl refl), (tt, all))
      ]

  read_span_individual-AllTrue :
      (probes : List Probe) (pms : List ProbeMapping) (all_failed : Bool) (st : Stream)
      → IsHonest rd memory
      → All P pms
      → AllTrue st
      → AllTrue (read_span_individual rd section probes pms all_failed st).1
  unfolding read_span_individual
  read_span_individual-AllTrue probes [] all_failed st honest ps all = all
  read_span_individual-AllTrue probes (pm ∷ pms) all_failed st honest ps all =
      let st1 = (check rd st).1 in
      let one = read_individual rd section probes pm st1 in
      let (true_message, true_trace) =
        read_individual-AllTrue probes pm st1 honest ps.0 (tt, all) in
      let rest =
        read_span_individual-AllTrue probes pms (all_failed && one.0.0)
          (emit one.0.1 (check rd one.1).1) honest ps.1 (true_message, (tt, true_trace)) in
      both (rd.is_cancelled st.trace) _ _ (tt, all)
        (both (rd.is_cancelled one.1.trace) _ _ (tt, true_trace) rest)

  emit_probes-AllTrue :
      (span : BatchSpan) (probes : List Probe) (pms : List ProbeMapping) (st : Stream)
      → All P pms
      → All (IsSliced memory span) pms
      → AllTrue st
      → AllTrue
          (emit_probes rd section probes (response memory span.start_addr span.total_count) pms st)
  unfolding emit_probes
  emit_probes-AllTrue span probes [] st ps sliced all = all
  emit_probes-AllTrue span probes (pm ∷ pms) st ps sliced all =
      rw (sliced.0, emit_probes)
        (emit_probes-AllTrue span probes pms
          (store_result probes pm.probe.addr
            (data_bytes (response memory pm.probe.addr pm.probe.count))
            (emit (value_message rd section pm (response memory pm.probe.addr pm.probe.count)) st))
          ps.1 sliced.1 (rw store_result-trace ((pm, ps.0, inl refl), all)))

  read_degraded-AllTrue :
      (probes : List Probe) (span : BatchSpan) (st : Stream)
      → IsHonest rd memory
      → All P span.probes
      → AllTrue st
      → AllTrue (read_degraded rd section probes span st).1
  unfolding read_degraded
  read_degraded-AllTrue probes span st honest ps all =
      let rest = read_span_individual-AllTrue probes span.probes true st honest ps all in
      ground arith

  read_batch-AllTrue :
      (probes : List Probe) (span : BatchSpan) (st : Stream)
      → IsHonest rd memory
      → All P span.probes
      → All (IsSliced memory span) span.probes
      → AllTrue st
      → AllTrue (read_batch rd section probes span st).1
  unfolding read_batch
  read_batch-AllTrue probes span st honest ps sliced all =
      elim (ProbeResult-cases (rd.read st.trace span.start_addr span.total_count)) [
        | inl (e, h) ↦
            rw (h, read_batch)
              (
                tt,
                read_span_individual-AllTrue probes span.probes true
                    (track (λ t. (record_failure t span.start_addr).0)
                      (request rd span.start_addr span.total_count st).1)
                    honest ps
                    (track-AllTrue _ (request rd span.start_addr span.total_count st).1 (tt, all)),
              )
        | inr (bytes, h) ↦
            let answered = (request rd span.start_addr span.total_count st).1 in
            let st1 = (check rd (track (λ t. record_success t span.start_addr) answered)).1 in
            let all1 = track-AllTrue (λ t. record_success t span.start_addr) answered (tt, all) in
            rw (h, read_batch, honest st.trace _ _ bytes h)
              (both (rd.is_cancelled (track (λ t. record_success t span.start_addr) answered).trace)
                _ _ (tt, all1)
                (emit_probes-AllTrue span probes span.probes st1 ps sliced (tt, all1)))
      ]

  read_span-AllTrue :
      (probes : List Probe) (span : BatchSpan) (st : Stream)
      → IsHonest rd memory
      → All P span.probes
      → All (IsSliced memory span) span.probes
      → AllTrue st
      → AllTrue (read_span rd section probes span st).1
  unfolding read_span
  read_span-AllTrue probes span st honest ps sliced all =
      let st1 = (check rd st).1 in
      let whole = read_batch-AllTrue probes span st1 honest ps sliced (tt, all) in
      let one_by_one = read_degraded-AllTrue probes span st1 honest ps (tt, all) in
      both (rd.is_cancelled st.trace) _ _ (tt, all)
        (both (tracked st.tracker span.start_addr).1 _ _ whole
          (by_state (tracked st.tracker span.start_addr).0 _ _ _ whole one_by_one (tt, all)))

  read_spans-AllTrue :
      (probes : List Probe) (spans : List BatchSpan) (st : Stream)
      → IsHonest rd memory
      → All (λ (s : BatchSpan). All P s.probes) spans
      → All (λ (s : BatchSpan). All (IsSliced memory s) s.probes) spans
      → AllTrue st
      → AllTrue (read_spans rd section probes spans st).1
  unfolding read_spans
  read_spans-AllTrue probes [] st honest ps sliced all = all
  read_spans-AllTrue probes (span ∷ spans) st honest ps sliced all =
      let st1 = (read_span rd section probes span st).1 in
      let all1 = read_span-AllTrue probes span st honest ps.0 sliced.0 all in
      both (read_span rd section probes span st).0 _ _
        (read_spans-AllTrue probes spans st1 honest ps.1 sliced.1 all1) all1

-- Whatever fails or is cancelled, and whatever the tracker says: if the broker's answers are what
-- the device holds, every message of readBatchSpans, for a section whose probes all end before
-- register 65535, is about a mapping of its plan (any property P of those is one of it), and is an error or
-- the value that the probe's own registers hold, never that of others.
pub read_batch_spans-IsTrue :
    (by : AddrSort) (gs : List ProbeGroup) (rd : Reader) (section : String) (memory : ℕ → ℕ)
    (P : ProbeMapping → Type 0) (tracker : Option SpanTracker)
    → GroupsInRange gs
    → IsHonest rd memory
    → All (λ (s : BatchSpan). All P s.probes) (analyze_batch_plan by.sort gs).spans
    → All
        (IsTrue rd section memory P)
        (read_batch_spans rd section
          (flatten_probe_groups gs)
          (analyze_batch_plan by.sort gs).spans
          tracker
          []).1.trace
unfolding read_batch_spans
read_batch_spans-IsTrue by gs rd section memory P tracker in_range honest ps =
    read_spans-AllTrue rd section memory P (flatten_probe_groups gs)
      (analyze_batch_plan by.sort gs).spans _ honest ps
      (extract_probe_data-analyze_batch_plan by gs memory in_range)
      (track-AllTrue rd section memory P tick (start_stream (flatten_probe_groups gs) tracker [])
        tt)

-- ===== src/Hub/Streaming/Complete.antt =====
-- A read of a section (internal/hub/hub_streaming.go) that nothing stops shows every probe.
use sofar_hyd_diag.Prelude.{
  ℕ, ◌≡◌, ◌≢◌, refl, sym, ap, ◌∙◌, inl, inr, Bool, true, false, String, Option, none, List, [], ◌∷◌,
  ◌++◌, All, if_both, Bool-cases, arith,
}
use mathlib.Core.List.{append_assoc, append-nil}
use sofar_hyd_diag.Register.Probe.{Probe, ProbeGroup, flatten_probe_groups}
use sofar_hyd_diag.Register.Batch.{BatchSpan}
use sofar_hyd_diag.Register.Batch.{analyze_batch_plan}
use sofar_hyd_diag.Register.Batch.Layout.{GroupsInRange, IsLaidOut, analyze_batch_plan-IsLaidOut}
use sofar_hyd_diag.Register.Batch.Sorting.{AddrSort}
use sofar_hyd_diag.Hub.Extraction.{extract_probe_data-analyze_batch_plan}
use sofar_hyd_diag.Hub.Message.{HubMessage}
use sofar_hyd_diag.Hub.SpanTracker.{
  SpanState, normal, degraded, skipped, SpanTracker, record_success, record_failure, tick, state,
  is_degraded,
}
use sofar_hyd_diag.Hub.Streaming.Truth.{IsSliced}
use sofar_hyd_diag.Hub.Streaming.{
  Event, Reader, Stream, check, request, track, read_span_individual, tracked, read_degraded,
  read_batch, read_span, read_spans, read_batch_spans, start_stream,
}
use sofar_hyd_diag.Hub.Streaming.Answered.{
  messages, probe_values, plan_values, Answers, NoneSkipped, read_span_individual-Sends,
  emit_probes-Sends,
}

record IsServed (rd : Reader) (memory : ℕ → ℕ) (span : BatchSpan) : Type 0 where
  answers : Answers rd memory span
  some_probe : span.probes ≢ []
  sliced : All (IsSliced memory span) span.probes

module _ (rd : Reader) (section : String) (memory : ℕ → ℕ)
    (running : (trace : List Event) → rd.is_cancelled trace ≡ false) where
  success-NoneSkipped :
      (b : ℕ) (st : Stream) → NoneSkipped st → NoneSkipped (track (λ t. record_success t b) st)
  unfolding record_success state
  success-NoneSkipped b st h a = let here = h a in ground arith

  failure-NoneSkipped :
      (b : ℕ) (st : Stream) → NoneSkipped st → NoneSkipped (track (λ t. (record_failure t b).0) st)
  unfolding record_failure state is_degraded
  failure-NoneSkipped b st h a = let here = h a in ground arith

  tick-NoneSkipped : (st : Stream) → NoneSkipped st → NoneSkipped (track tick st)
  unfolding tick state
  tick-NoneSkipped st h a = let here = h a in ground arith

  track-trace : (f : SpanTracker → SpanTracker) (st : Stream) → (track f st).trace ≡ st.trace
  track-trace f st = ground arith

  -- A span read whole or probe by probe.
  abbrev Shows : Stream → List HubMessage → Bool × Stream → Type 0
  Shows st ms r = (r.0 ≡ true) × (messages r.1.trace ≡ messages st.trace ++ ms) × NoneSkipped r.1

  read_degraded-Shows :
      (probes : List Probe) (span : BatchSpan) (st : Stream)
      → IsServed rd memory span
      → NoneSkipped st
      → Shows st
          (probe_values rd section memory span.probes)
          (read_degraded rd section probes span st)
  unfolding read_degraded
  read_degraded-Shows probes span st served none_skipped =
      let read = read_span_individual rd section probes span.probes true st in
      let ((sent, kept), none_failed) =
        read_span_individual-Sends rd section memory running probes span.probes true st
          served.answers.single in
      let after : Stream = (check rd read.1).1 in
      elim (Bool-cases read.0) [
        | inl failed ↦ absurd (served.some_probe (none_failed failed).1)
        | inr succeeded ↦
            rw (running read.1.trace, succeeded)
              (
                refl,
                ap messages (track-trace (λ t. record_success t span.start_addr) after) ∙ sent,
                success-NoneSkipped span.start_addr after (rw kept none_skipped),
              )
      ]

  read_batch-Shows :
      (probes : List Probe) (span : BatchSpan) (st : Stream)
      → IsServed rd memory span
      → NoneSkipped st
      → Shows st (probe_values rd section memory span.probes) (read_batch rd section probes span st)
  unfolding read_batch
  read_batch-Shows probes span st served none_skipped =
      let asked = (request rd span.start_addr span.total_count st).1 in
      elim (served.answers.whole st.trace) [
        | inl (e, h) ↦
            let st2 = track (λ t. (record_failure t span.start_addr).0) asked in
            let ((sent, kept), none_failed) =
              read_span_individual-Sends rd section memory running probes span.probes true st2
                served.answers.single in
            rw
              (
                h,
                read_batch,
                running (read_span_individual rd section probes span.probes true st2).1.trace,
              )
              (
                refl,
                sent
                    ∙ ap (λ t. messages t ++ probe_values rd section memory span.probes)
                        (track-trace (λ t. (record_failure t span.start_addr).0) asked),
                rw kept (failure-NoneSkipped span.start_addr asked none_skipped),
              )
        | inr h ↦
            let st2 = track (λ t. record_success t span.start_addr) asked in
            let (sent, kept) =
              emit_probes-Sends rd section memory running span probes span.probes (check rd st2).1
                served.sliced in
            rw (h, read_batch, running st2.trace)
              (
                refl,
                sent
                    ∙ ap (λ t. messages t ++ probe_values rd section memory span.probes)
                        (track-trace (λ t. record_success t span.start_addr) asked),
                rw kept (success-NoneSkipped span.start_addr asked none_skipped),
              )
      ]

  by_state :
      (st : Stream) (ms : List HubMessage) (s : SpanState) (x y z : Bool × Stream)
      → s ≢ skipped
      → Shows st ms x
      → Shows st ms y
      → Shows st ms (elim s as (λ _. Bool × Stream) [ normal ↦ x | degraded ↦ y | skipped ↦ z ])
  by_state st ms normal x y z h px py = px
  by_state st ms degraded x y z h px py = py
  by_state st ms skipped x y z h px py = absurd (h refl)

  read_span-Shows :
      (probes : List Probe) (span : BatchSpan) (st : Stream)
      → IsServed rd memory span
      → NoneSkipped st
      → Shows st (probe_values rd section memory span.probes) (read_span rd section probes span st)
  unfolding read_span
  read_span-Shows probes span st served none_skipped =
      let st1 = (check rd st).1 in
      let whole = read_batch-Shows probes span st1 served none_skipped in
      let one_by_one = read_degraded-Shows probes span st1 served none_skipped in
      rw (running st.trace) (
        if_both (Shows st (probe_values rd section memory span.probes))
          (tracked st.tracker span.start_addr).1 whole
          (by_state st (probe_values rd section memory span.probes)
            (tracked st.tracker span.start_addr).0 _ _ (true, st1) (none_skipped span.start_addr)
            whole one_by_one))

  read_spans-Shows :
      (probes : List Probe) (spans : List BatchSpan) (st : Stream)
      → All (IsServed rd memory) spans
      → NoneSkipped st
      → Shows st (plan_values rd section memory spans) (read_spans rd section probes spans st)
  unfolding read_spans
  read_spans-Shows probes [] st served none_skipped =
      (refl, sym (append-nil (messages st.trace)), none_skipped)
  read_spans-Shows probes (span ∷ spans) st served none_skipped =
      let first = read_span rd section probes span st in
      let (done, sent, none_skipped1) = read_span-Shows probes span st served.0 none_skipped in
      let (done', sent', none_skipped2) =
        read_spans-Shows probes spans first.1 served.1 none_skipped1 in
      rw (done, read_spans)
        (
          done',
          sent'
              ∙ rw sent (
                  append_assoc (messages st.trace) (probe_values rd section memory span.probes)
                    (plan_values rd section memory spans)),
          none_skipped2,
        )

laid_out-some_probe : (s : BatchSpan) → IsLaidOut s → s.probes ≢ []
laid_out-some_probe s laid_out e =
    rw e at (laid_out.no_gap s.start_addr (omega arith) (omega (arith, laid_out.some_register)))

spans-IsServed :
    (rd : Reader) (memory : ℕ → ℕ) (spans : List BatchSpan)
    → All IsLaidOut spans
    → All (λ (s : BatchSpan). All (IsSliced memory s) s.probes) spans
    → All (Answers rd memory) spans
    → All (IsServed rd memory) spans
spans-IsServed rd memory [] laid_out sliced answers = tt
spans-IsServed rd memory (s ∷ ss) laid_out sliced answers = (
  record { answers = answers.0; some_probe = laid_out-some_probe s laid_out.0; sliced = sliced.0 },
  spans-IsServed rd memory ss laid_out.1 sliced.1 answers.1,
)

-- readBatchSpans, for a section whose probes end before register 65535, which is not cancelled and
-- whose tracker skips no span, gives results and sends for each probe of the plan, in the plan's order,
-- the value of its own registers, and nothing else, if each read of a single probe is answered with
-- what the device holds and each read of a span is, or fails: how many batch reads fail, and which
-- spans are degraded, makes no difference to what the client sees.
pub read_batch_spans-messages :
    (by : AddrSort) (gs : List ProbeGroup) (rd : Reader) (section : String) (memory : ℕ → ℕ)
    (tracker : Option SpanTracker)
    → GroupsInRange gs
    → ((trace : List Event) → rd.is_cancelled trace ≡ false)
    → ((a : ℕ) → (tracked tracker a).0 ≢ skipped)
    → All (Answers rd memory) (analyze_batch_plan by.sort gs).spans
    → let spans = (analyze_batch_plan by.sort gs).spans in
      let r = read_batch_spans rd section (flatten_probe_groups gs) spans tracker [] in
      (r.0 ≢ none) × (messages r.1.trace ≡ plan_values rd section memory spans)
unfolding read_batch_spans
read_batch_spans-messages by gs rd section memory tracker in_range running none_skipped answers =
    let spans = (analyze_batch_plan by.sort gs).spans in
    let probes = flatten_probe_groups gs in
    let start = start_stream probes tracker [] in
    let served =
      spans-IsServed rd memory spans (analyze_batch_plan-IsLaidOut by gs in_range)
        (extract_probe_data-analyze_batch_plan by gs memory in_range) answers in
    let (done, sent, _) =
      read_spans-Shows rd section memory running probes spans (track tick start) served
        (tick-NoneSkipped rd section memory running start none_skipped) in
    rw done (λ e. cc, sent ∙ rw (track-trace rd section memory running tick start) refl)

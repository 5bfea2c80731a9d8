-- ===== src/Hub/Streaming/Answered.antt =====
-- What a span of a section read (internal/hub/hub_streaming.go) sends when it is answered.
use sofar_hyd_diag.Prelude.{
  ℕ, ◌≡◌, ◌≢◌, refl, sym, ap, ◌∙◌, ◌⊎◌, Bool, true, false, ◌&&◌, String, List, [], ◌∷◌, ◌++◌, map,
  All, arith,
}
use mathlib.Core.List.{append_assoc, append-nil}
use sofar_hyd_diag.Register.Probe.{Probe}
use sofar_hyd_diag.Register.Batch.{ProbeMapping, BatchSpan}
use sofar_hyd_diag.Hub.Extraction.{response}
use sofar_hyd_diag.Hub.Message.{HubMessage}
use sofar_hyd_diag.Hub.SpanTracker.{skipped}
use sofar_hyd_diag.Hub.Streaming.Truth.{IsSliced}
use sofar_hyd_diag.Hub.Streaming.{
  ProbeResult, data_bytes, fails, Event, emitted, Reader, Stream, emit, check, request,
  store_result, value_message, read_individual, read_span_individual, emit_probes, tracked,
}

-- The messages sent, oldest first.
abbrev pub messages : List Event → List HubMessage
messages [] = []
messages (emitted m ∷ t) = messages t ++ (m ∷ [])
messages (_ ∷ t) = messages t

-- The values of a span's probes, as the device holds them.
abbrev pub probe_values : Reader → String → (ℕ → ℕ) → List ProbeMapping → List HubMessage
probe_values rd section memory =
    map (λ pm. value_message rd section pm (response memory pm.probe.addr pm.probe.count))

abbrev pub plan_values : Reader → String → (ℕ → ℕ) → List BatchSpan → List HubMessage
plan_values rd section memory [] = []
plan_values rd section memory (s ∷ ss) =
    probe_values rd section memory s.probes ++ plan_values rd section memory ss

-- Nothing is cancelled, and each answer is what the device holds: always for a read of one probe,
-- and for a read of a span unless it fails.
pub record Answers (rd : Reader) (memory : ℕ → ℕ) (span : BatchSpan) : Type 0 where
  pub whole :
      (trace : List Event)
      → ((e : String) × (rd.read trace span.start_addr span.total_count ≡ fails e))
        ⊎ (rd.read trace span.start_addr span.total_count
            ≡ data_bytes (response memory span.start_addr span.total_count))
  pub single :
      All
        (λ (pm : ProbeMapping).
          (trace : List Event)
          → rd.read trace pm.probe.addr pm.probe.count
            ≡ data_bytes (response memory pm.probe.addr pm.probe.count))
        span.probes

-- The tracker lets every span be read.
abbrev pub NoneSkipped : Stream → Type 0
NoneSkipped st = (a : ℕ) → (tracked st.tracker a).0 ≢ skipped

-- From a stream to one that has sent these messages more, with the same tracker.
abbrev pub Sends : Stream → List HubMessage → Stream → Type 0
Sends st ms st' = (messages st'.trace ≡ messages st.trace ++ ms) × (st'.tracker ≡ st.tracker)

module _ (rd : Reader) (section : String) (memory : ℕ → ℕ)
    (running : (trace : List Event) → rd.is_cancelled trace ≡ false) where
  store_result-Sends :
      (probes : List Probe) (addr : ℕ) (r : ProbeResult) (st : Stream)
      → ((store_result probes addr r st).trace ≡ st.trace)
        × ((store_result probes addr r st).tracker ≡ st.tracker)
  unfolding store_result
  store_result-Sends probes addr r st = ground arith

  read_individual-served :
      (probes : List Probe) (pm : ProbeMapping) (st : Stream)
      → rd.read st.trace pm.probe.addr pm.probe.count
        ≡ data_bytes (response memory pm.probe.addr pm.probe.count)
      → let r = read_individual rd section probes pm st in
        (r.0.0 ≡ false)
        × (r.0.1 ≡ value_message rd section pm (response memory pm.probe.addr pm.probe.count))
        × (messages r.1.trace ≡ messages st.trace)
        × (r.1.tracker ≡ st.tracker)
  unfolding read_individual
  read_individual-served probes pm st h =
      let answered = (request rd pm.probe.addr pm.probe.count st).1 in
      let (same_trace, same_tracker) =
        store_result-Sends probes pm.probe.addr
          (data_bytes (response memory pm.probe.addr pm.probe.count)) answered in
      rw (h, read_individual) (refl, refl, ap messages same_trace, same_tracker)

  pub read_span_individual-Sends :
      (probes : List Probe) (pms : List ProbeMapping) (all_failed : Bool) (st : Stream)
      → All
          (λ (pm : ProbeMapping).
            (trace : List Event)
            → rd.read trace pm.probe.addr pm.probe.count
              ≡ data_bytes (response memory pm.probe.addr pm.probe.count))
          pms
      → Sends st
          (probe_values rd section memory pms)
          (read_span_individual rd section probes pms all_failed st).1
        × ((read_span_individual rd section probes pms all_failed st).0 ≡ true
            → (all_failed ≡ true) × (pms ≡ []))
  unfolding read_span_individual
  read_span_individual-Sends probes [] all_failed st single =
      ((sym (append-nil (messages st.trace)), refl), λ e. (e, refl))
  read_span_individual-Sends probes (pm ∷ pms) all_failed st single =
      let st1 = (check rd st).1 in
      let one = read_individual rd section probes pm st1 in
      let v = value_message rd section pm (response memory pm.probe.addr pm.probe.count) in
      let (succeeds, shown, same_messages, same_tracker) =
        read_individual-served probes pm st1 (single.0 st1.trace) in
      let ((sent, kept), none_failed) =
        read_span_individual-Sends probes pms (all_failed && one.0.0)
          (emit one.0.1 (check rd one.1).1) single.1 in
      rw (running st.trace, running one.1.trace)
        (
          (
            sent
                ∙ rw (same_messages, shown)
                    (append_assoc (messages st.trace) (v ∷ [])
                      (probe_values rd section memory pms)),
            kept ∙ same_tracker,
          ),
          λ e. ground arith,
        )

  pub emit_probes-Sends :
      (span : BatchSpan) (probes : List Probe) (pms : List ProbeMapping) (st : Stream)
      → All (IsSliced memory span) pms
      → Sends st
          (probe_values rd section memory pms)
          (emit_probes rd section probes (response memory span.start_addr span.total_count) pms st)
  unfolding emit_probes
  emit_probes-Sends span probes [] st sliced = (sym (append-nil (messages st.trace)), refl)
  emit_probes-Sends span probes (pm ∷ pms) st sliced =
      let bytes = response memory pm.probe.addr pm.probe.count in
      let v = value_message rd section pm bytes in
      let st1 = store_result probes pm.probe.addr (data_bytes bytes) (emit v st) in
      let (same_trace, same_tracker) =
        store_result-Sends probes pm.probe.addr (data_bytes bytes) (emit v st) in
      let (sent, kept) = emit_probes-Sends span probes pms st1 sliced.1 in
      rw (sliced.0, emit_probes)
        (
          sent
              ∙ rw same_trace
                  (append_assoc (messages st.trace) (v ∷ []) (probe_values rd section memory pms)),
          kept ∙ same_tracker,
        )

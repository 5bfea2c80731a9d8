-- ===== src/Hub/Run/Shown.antt =====
-- internal/hub: from the registers of the device to the channel of a client, by a read of a section.
use sofar_hyd_diag.Prelude.{
  ℕ, ◌≡◌, ◌≢◌, refl, ap, ◌∙◌, false, String, some, List, [], ◌∷◌, ◌++◌, map, All,
}
use sofar_hyd_diag.Register.Batch.{analyze_batch_plan}
use sofar_hyd_diag.Register.Batch.Layout.{GroupsInRange}
use sofar_hyd_diag.Register.Batch.Sorting.{AddrSort}
use sofar_hyd_diag.Register.Probe.{ProbeGroup}
use sofar_hyd_diag.Hub.Message.{section_complete}
use sofar_hyd_diag.Hub.SpanTracker.{skipped}
use sofar_hyd_diag.Hub.Section.{Section}
use sofar_hyd_diag.Hub.Streaming.{Event, Reader, tracked, read_batch_spans}
use sofar_hyd_diag.Hub.Streaming.Answered.{messages, plan_values, Answers}
use sofar_hyd_diag.Hub.Streaming.Complete.{read_batch_spans-messages}
use sofar_hyd_diag.Hub.Reads.{finished, section_read, stream_of, stream_standard_read}
use text.Mathlib.Text.{◌==◌ as same_text}
use sofar_hyd_diag.Hub.State.{Hub, Room, with_groups}
use sofar_hyd_diag.Hub.Run.{result, run_events}
use sofar_hyd_diag.Hub.Run.Delivery.{received, times, HasRoom, Delivers, results-received}

module _ (rd : Reader) (running : (trace : List Event) → rd.is_cancelled trace ≡ false) where
  -- A standard read of a section without faults sends the values, and its end.
  stream_standard_read-messages :
      (name : String) (sec : Section)
      → sec.fault_section ≡ false
      → messages (stream_standard_read rd name sec).trace
        ≡ messages
            (read_batch_spans rd name sec.probes sec.batch_plan.spans sec.span_tracker []).1.trace
          ++ (section_complete name ∷ [])
  unfolding stream_standard_read
  stream_standard_read-messages name sec not_system =
      let st = (read_batch_spans rd name sec.probes sec.batch_plan.spans sec.span_tracker []).1 in
      rw (running st.trace, not_system) refl

section_read-standard :
    (rd : Reader) (name : String) (sec : Section)
    → same_text name "bms" ≡ false
    → same_text name "battery" ≡ false
    → section_read rd name sec ≡ finished (stream_standard_read rd name sec)
unfolding section_read
section_read-standard rd name sec not_bms not_battery = rw (not_bms, not_battery) refl

-- From the device to the client: a section other than the system's, the bms and the battery, with
-- whatever groups whose probes end before register 65535, is read without being cancelled, with no
-- span skipped; each read of a single probe is answered with what the device holds, and each of a
-- span is, or fails.
-- Once the hub has taken up what the read sends, each subscriber of the section (the buffers have
-- room, no subscriber is closed) was sent, besides what it was sent before, the values of all
-- probes of the plan in the plan's order and then the end of the section, and nothing else.
pub section_read-received :
    (by : AddrSort) (room : Room) (gs : List ProbeGroup) (rd : Reader) (memory : ℕ → ℕ)
    (name : String) (sec : Section) (cs : List ℕ) (c : ℕ) (h : Hub)
    → GroupsInRange gs
    → ((trace : List Event) → rd.is_cancelled trace ≡ false)
    → ((a : ℕ) → (tracked sec.span_tracker a).0 ≢ skipped)
    → All (Answers rd memory) (analyze_batch_plan by.sort gs).spans
    → sec.fault_section ≡ false
    → same_text name "bms" ≡ false
    → same_text name "battery" ≡ false
    → HasRoom room
    → times c cs ≡ 1
    → Delivers name cs h
    → let sends = messages (stream_of (section_read rd name (with_groups by gs sec))).trace in
      (h' : Hub) × (run_events by room (map (result name) sends) h ≡ some h')
      × (received c h'.effects
          ≡ received c h.effects
            ++ (plan_values rd name memory (analyze_batch_plan by.sort gs).spans
                ++ (section_complete name ∷ [])))
section_read-received by room gs rd memory name sec cs c h in_range running none_skipped answers
      not_system not_bms not_battery has_room single v =
    let read = stream_of (section_read rd name (with_groups by gs sec)) in
    let (_, values) =
      read_batch_spans-messages by gs rd name memory sec.span_tracker in_range running none_skipped
        answers in
    let standard =
      ap (λ r. messages (stream_of r).trace)
        (section_read-standard rd name (with_groups by gs sec) not_bms not_battery) in
    let sends = stream_standard_read-messages rd running name (with_groups by gs sec) not_system in
    let (h', ran, got) =
      results-received by room has_room name cs c (messages read.trace) h single v in
    (
      h',
      ran,
      got
          ∙ ap (λ ms. received c h.effects ++ ms)
              (standard ∙ sends ∙ ap (λ ms. ms ++ (section_complete name ∷ [])) values),
    )

-- ===== src/Hub/Run/Examples.antt =====
-- The theorems on the event loop of the hub, at runs with two clients.
use sofar_hyd_diag.Prelude.{
  ℕ, ◌*◌, ◌≡◌, refl, true, false, inr, map, ◌++◌, All, not, ◌==◌, if◌then◌else◌, none, some, List,
  [], ◌∷◌, arith,
}
use sofar_hyd_diag.Broker.State.{connecting, connected}
use sofar_hyd_diag.Register.Battery.{generate_battery_groups}
use sofar_hyd_diag.Register.Format.{pos, negsuc}
use sofar_hyd_diag.Register.Batch.{
  collect, collect_probes, new_span, place, walk, spans_of, analyze_batch_plan,
}
use sofar_hyd_diag.Prelude.Sorting.{insert, insertion_sort}
use sofar_hyd_diag.Register.Batch.Sorting.{by_insertion}
use sofar_hyd_diag.Register.Probe.{ProbeGroup, probe, group}
use sofar_hyd_diag.Hub.Extraction.{response}
use sofar_hyd_diag.Hub.Message.{section_complete}
use sofar_hyd_diag.Hub.SpanTracker.{new_span_tracker, state}
use sofar_hyd_diag.Hub.Streaming.{data_bytes, Reader}
use sofar_hyd_diag.Hub.Streaming.Answered.{messages, plan_values, Answers}
use sofar_hyd_diag.Hub.Reads.{section_read, stream_of}
use text.Mathlib.Text.{◌==◌ as same_text}
use sofar_hyd_diag.Hub.Section.{
  Section, new_grouped_section, remove_subscriber, add_subscriber, cancel_read, subscriber_count,
}
use sofar_hyd_diag.Hub.Sections.{builtin_sections}
use sofar_hyd_diag.Hub.State.{
  Hub, Room, with_groups, read_started, broadcast_all, broadcast, broadcast_result_to_section,
  send_to_client, remove_client, unsubscribe_client, left_section,
}
use sofar_hyd_diag.Hub.State.Soundness.{IsSafe}
use sofar_hyd_diag.Hub.Commands.{
  subscribe, select_pack, refresh, read_cycle, handle_command, subscribe_client, show_section,
  leave_previous, handle_select_pack, handle_state_event, connection_made, trigger_section_read,
}
use sofar_hyd_diag.Hub.Commands.Subscribing.{subscribe_client-closed}
use sofar_hyd_diag.Hub.Run.{
  HubEvent, registered, unregistered, command, state_event, read_done, result, new_hub,
  register_sections, register_builtin_sections, handle_event, run_events, started, run,
}
use sofar_hyd_diag.Hub.Run.Safety.{run_events-IsSafe}
use sofar_hyd_diag.Hub.Run.Overlap.{read_done-read_cycle}
use sofar_hyd_diag.Hub.Run.Delivery.{received}
use sofar_hyd_diag.Hub.Run.Shown.{section_read-received}
use sofar_hyd_diag.Hub.Run.Shutdown.{IsOver, run-IsOver}

-- A client that registers, subscribes to the battery and asks for a pack while the connection comes
-- up, and one whose buffer is full.
abbrev sample_room : Room
sample_room es c = not (c == 2)

abbrev sample_events : List HubEvent
sample_events =
    registered 1 connecting
    ∷ registered 2 connecting
    ∷ command 1 (subscribe "battery")
    ∷ state_event connected ""
    ∷ command 1 (select_pack (pos 1) (pos 7) (negsuc 2))
    ∷ unregistered 1
    ∷ []

run_events-IsSafe_example :
    IsSafe (run_events by_insertion sample_room sample_events (started by_insertion (pos 3)))
unfolding run_events handle_event handle_command subscribe_client show_section leave_previous
    handle_select_pack handle_state_event connection_made broadcast_all broadcast
    broadcast_result_to_section send_to_client remove_client unsubscribe_client left_section
    remove_subscriber add_subscriber cancel_read subscriber_count trigger_section_read
    register_builtin_sections register_sections new_hub new_grouped_section builtin_sections
    generate_battery_groups
run_events-IsSafe_example =
    run_events-IsSafe by_insertion sample_room (pos 3) sample_events
      (refl, (refl, (λ _. refl, (tt, (λ _. refl, (tt, tt))))))

run-IsOver_example :
    (h : Hub) × (run_events by_insertion sample_room
        (registered 1 connecting ∷ [])
        (started by_insertion (pos 3))
      ≡ some h)
    × IsOver h (run by_insertion sample_room (pos 3) (registered 1 connecting ∷ []))
unfolding handle_event send_to_client register_builtin_sections register_sections new_hub
    new_grouped_section builtin_sections
run-IsOver_example =
    run-IsOver by_insertion sample_room (pos 3) (registered 1 connecting ∷ []) (refl, tt)

subscribe_client-closed_example :
    subscribe_client sample_room 2 "pv" (record (new_hub (pos 3)) { closed = λ _. true }) ≡ none
unfolding new_hub
subscribe_client-closed_example =
    subscribe_client-closed sample_room 2 "pv" (record (new_hub (pos 3)) { closed = λ _. true })
      refl refl (λ sec found. absurd (ground arith))

-- A section that client 1 reads, in a hub that is connected.
abbrev pv_section : Section
pv_section = record (new_grouped_section by_insertion "pv" []) {
  subscribers = 1 ∷ [];
  reading = true;
  read_cancel = some 0;
}

abbrev reading_hub : Hub
reading_hub = record (new_hub (pos 3)) {
  sections = λ n. if same_text n "pv" then some pv_section else none;
  connected = true;
  next_context = 1;
}

read_done-read_cycle_example :
    ((h1 : Hub) × (run_events by_insertion sample_room
          (command 1 (refresh "pv") ∷ command 1 (read_cycle "pv") ∷ [])
          reading_hub
        ≡ some h1)
      × (h1.effects ≡ read_started "pv" 1 ∷ []))
    × ((h2 : Hub) × (run_events by_insertion sample_room
            (command 1 (refresh "pv") ∷ read_done "pv" 0 ∷ command 1 (read_cycle "pv") ∷ [])
            reading_hub
          ≡ some h2)
        × (h2.effects ≡ read_started "pv" 2 ∷ read_started "pv" 1 ∷ [])
        × (h2.sections "pv"
            ≡ some (record pv_section {
              reading = true;
              read_cancel = some 2;
              cancelled_contexts = 1 ∷ 0 ∷ [];
            })))
unfolding new_hub new_grouped_section subscriber_count
read_done-read_cycle_example =
    read_done-read_cycle by_insertion sample_room 1 0 "pv" pv_section reading_hub
      (record {
        found = refl;
        in_progress = refl;
        subscribed = refl;
        not_cached = refl;
        is_connected = refl;
        not_bms = refl;
      })
      refl refl

-- A group of one register, read from a device, for client 1 alone.
abbrev one_group : List ProbeGroup
one_group = group "PV 1" (probe "Voltage" 0x0584 1 ∷ []) ∷ []

abbrev held : ℕ → ℕ
held addr = addr * 3

abbrev device : Reader
device = record {
  read = λ trace addr count. data_bytes (response held addr count);
  read_many = λ trace reads. [];
  write = λ trace addr value. none;
  is_cancelled = λ trace. false;
  print_float = λ decimals value scale. [];
}

device-Answers : All (Answers device held) (analyze_batch_plan by_insertion.sort one_group).spans
unfolding analyze_batch_plan collect collect_probes spans_of walk place new_span insertion_sort
    insert
device-Answers = (record { whole = λ trace. inr refl; single = (λ trace. refl, tt) }, tt)

section_read-received_example :
    let sends =
      messages
        (stream_of
          (section_read device "pv" (with_groups by_insertion one_group pv_section))).trace in
    (h' : Hub) × (run_events by_insertion (λ es c. true) (map (result "pv") sends) reading_hub
      ≡ some h')
    × (received 1 h'.effects
        ≡ []
          ++ (plan_values device "pv" held (analyze_batch_plan by_insertion.sort one_group).spans
              ++ (section_complete "pv" ∷ [])))
unfolding new_hub new_grouped_section new_span_tracker state
section_read-received_example =
    section_read-received by_insertion (λ es c. true) one_group device held "pv" pv_section (1 ∷ [])
      1 reading_hub ((omega arith, tt), tt) (λ trace. refl) (λ a e. cc) device-Answers refl refl
      refl (λ es c. refl) refl
      (record { section = pv_section; found = refl; has_subscribers = refl; is_open = (refl, tt) })

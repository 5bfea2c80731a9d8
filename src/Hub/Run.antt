-- ===== src/Hub/Run.antt =====
-- internal/hub/hub.go: the event loop of the hub, from its start to its shutdown. An event is what
-- the loop's select receives; the end of the list of events stands for the end of the context, and
-- for that of the state events.
mod Examples
pub mod Delivery
pub mod Overlap
pub mod Safety
pub mod Shown
pub mod Shutdown
use sofar_hyd_diag.Prelude.{
  ℕ, ◌+◌, Bool, true, false, not, ◌&&◌, String, Option, none, some, List, [], ◌∷◌, if◌then◌else◌,
}
use text.Mathlib.Text.{◌==◌ as same_text}
use sofar_hyd_diag.Register.Format.{ℤ}
use sofar_hyd_diag.Register.Probe.{ProbeGroup}
use sofar_hyd_diag.Register.Batch.Sorting.{AddrSort}
use sofar_hyd_diag.Broker.State.{State, state_string}
use sofar_hyd_diag.Hub.Message.{HubMessage, section_complete, connection_state}
use sofar_hyd_diag.Hub.SpanTracker.{new_span_tracker, default_degradation_threshold}
use sofar_hyd_diag.Hub.Section.{Section, is_member, new_grouped_section}
use sofar_hyd_diag.Hub.Sections.{builtin_sections}
use sofar_hyd_diag.Hub.State.{
  Hub, Room, ◌>>=◌, put_section, each_section, cancelled, reset_tracker, close_client,
  remove_client, send_to_client, is_client, broadcast_result_to_section,
}
use sofar_hyd_diag.Hub.Commands.{
  clamp, trigger_section_read, InboundMessage, handle_command, rebuild_battery, handle_state_event,
}

-- `NewHub`.
unfoldable pub new_hub : ℤ → Hub
unfolding clamp
new_hub pv_channels = record {
  clients = [];
  client_section = λ _. "";
  closed = λ _. false;
  sections = λ _. none;
  connected = false;
  default_pv_channels = clamp 2 16 pv_channels;
  selected_pack = none;
  read_delay_ms = 500;
  pack_settle_ms = 1000;
  pack_span_tracker = new_span_tracker default_degradation_threshold;
  next_context = 0;
  effects = [];
}

abbrev pub register_grouped_section : AddrSort → String → List ProbeGroup → Hub → Hub
register_grouped_section by name groups h = put_section name (new_grouped_section by name groups) h

-- Sections with their names, in order.
unfoldable pub register_sections : AddrSort → List String → List (List ProbeGroup) → Hub → Hub
register_sections by [] gss h = h
register_sections by (name ∷ names) [] h = h
register_sections by (name ∷ names) (gs ∷ gss) h =
    register_sections by names gss (register_grouped_section by name gs h)

abbrev pub section_names : List String
section_names =
    "system" ∷ "configuration" ∷ "grid" ∷ "eps" ∷ "pv" ∷ "battery" ∷ "bms" ∷ "meter" ∷ "pcu" ∷ "bdu"
    ∷ []

-- `registerBuiltinSections`: the configuration is read once.
unfoldable pub register_builtin_sections : AddrSort → Hub → Hub
unfolding register_sections
register_builtin_sections by h =
    let h1 = register_sections by section_names (builtin_sections h.default_pv_channels) h in
    elim (h1.sections "configuration") [
      | none ↦ h1
      | some sec ↦ put_section "configuration" (record sec { read_once = true }) h1
    ]

-- What the loop receives. `dropped` and `channels_found` are the functions that the goroutines of
-- reads pass to it; `read_done` is the end of the goroutine of a read of a section, which had some
-- context: it resets the section's flag on its own.
pub data HubEvent : Type 0 where
  registered : ℕ → State → HubEvent
  unregistered : ℕ → HubEvent
  command : ℕ → InboundMessage → HubEvent
  state_event : State → String → HubEvent
  result : String → HubMessage → HubEvent
  dropped : ℕ → HubEvent
  channels_found : ℕ → HubEvent
  read_done : String → ℕ → HubEvent

abbrev pub with_client : ℕ → Hub → Hub
with_client c h = if is_client h c then h else record h { clients = c ∷ h.clients }

abbrev pub is_complete : HubMessage → Bool
is_complete msg = elim msg [ section_complete _ ↦ true | _ ↦ false ]

-- A read-once section that is read now.
abbrev pub mark_read : String → HubMessage → Hub → Hub
mark_read section msg h = elim (h.sections section) [
  | none ↦ h
  | some sec ↦
      if is_complete msg && (sec.read_once && not sec.has_read_once)
      then put_section section (record sec { has_read_once = true }) h
      else h
]

-- `defer sec.reading.Store(false)`, in the goroutine of the read with the context: it does not look
-- whether that is the read that the section has.
abbrev pub reading_over : String → ℕ → Hub → Hub
reading_over section context h = elim (h.sections section) [
  | none ↦ h
  | some sec ↦ put_section section (record sec { reading = false }) h
]

-- The function that `streamBatteryBatchRead` passes on.
abbrev pub channels_changed : AddrSort → Room → ℕ → Hub → Option Hub
channels_changed by room channels h = elim (h.sections "battery") [
  | none ↦ some h
  | some sec ↦ rebuild_battery by room reset_tracker channels sec h >>= λ h1.
      some (trigger_section_read "battery" h1)
]

unfoldable pub handle_event : AddrSort → Room → HubEvent → Hub → Option Hub
unfolding handle_command handle_state_event
handle_event by room (registered c state) h =
    send_to_client room c (connection_state (state_string state) "") (with_client c h)
handle_event by room (unregistered c) h = remove_client c h
handle_event by room (command c msg) h = handle_command by room c msg h
handle_event by room (state_event state err_msg) h = handle_state_event by room state err_msg h
handle_event by room (result section msg) h =
    broadcast_result_to_section room section msg (mark_read section msg h)
handle_event by room (dropped c) h = remove_client c h
handle_event by room (channels_found channels) h = channels_changed by room channels h
handle_event by room (read_done section context) h = some (reading_over section context h)

unfoldable pub run_events : AddrSort → Room → List HubEvent → Hub → Option Hub
unfolding handle_event
run_events by room [] h = some h
run_events by room (e ∷ es) h = handle_event by room e h >>= run_events by room es

unfoldable pub close_clients : List ℕ → Hub → Option Hub
close_clients [] h = some h
close_clients (c ∷ cs) h = (if is_client h c then close_client c h else some h) >>= close_clients cs

unfoldable pub shutdown : Hub → Option Hub
unfolding close_clients
shutdown h = close_clients h.clients h >>= λ h1. some (each_section cancelled h1)

-- The hub as `Run` starts it.
abbrev pub started : AddrSort → ℤ → Hub
started by pv_channels = register_builtin_sections by (new_hub pv_channels)

unfoldable pub run : AddrSort → Room → ℤ → List HubEvent → Option Hub
unfolding run_events shutdown
run by room pv_channels es = run_events by room es (started by pv_channels) >>= shutdown

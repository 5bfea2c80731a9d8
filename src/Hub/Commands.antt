-- ===== src/Hub/Commands.antt =====
-- internal/hub/hub.go: the handlers of the commands of a client and of the broker's state events.
-- The goroutines that the hub starts are effects; Hub.Reads holds what those of reads do.
pub mod Safety
pub mod Subscribing
use sofar_hyd_diag.Prelude.{
  ℕ, ◌+◌, ◌-◌, ◌%◌, Bool, true, false, not, ◌&&◌, ◌||◌, String, Option, none, some, List, [], ◌∷◌,
  ◌++◌, ltb, leb, ◌==◌, if◌then◌else◌, utf8,
}
use text.Mathlib.Text.{◌==◌ as same_text}
use sofar_hyd_diag.Register.Format.{ℤ, pos, negsuc, integer_text}
use sofar_hyd_diag.Register.Batch.Sorting.{AddrSort}
use sofar_hyd_diag.Register.Generated.{generate_pv_groups}
use sofar_hyd_diag.Broker.State.{
  State, connected, disconnected, reconnecting, dormant, connecting, state_string,
}
use sofar_hyd_diag.Hub.Message.{
  HubMessage, section_schema, section_error, connection_state, section_complete,
}
use sofar_hyd_diag.Hub.SpanTracker.{reset}
use sofar_hyd_diag.Hub.Section.{Section, add_subscriber, subscriber_count}
use sofar_hyd_diag.Hub.Reads.{
  topo_inputs, topo_towers, topo_packs_per_tower, build_section_schema, battery_section_groups,
}
use sofar_hyd_diag.Hub.State.{
  PackSelection, Hub, Effect, sent, read_started, pack_read_started, reconfigure_asked,
  disconnect_asked, delay_set, Room, note, ◌>>=◌, put_section, each_section, cancel_section,
  cancelled, reset_tracker, with_groups, unsubscribe_client, remove_client, send_to_client,
  broadcast_all, broadcast_result_to_section,
}

-- `sec.cancelRead()`, then a context of its own for a read of the section.
abbrev pub start_context : String → Section → Hub → Hub
start_context section_name sec h =
    record (put_section section_name
      (record (cancelled sec) { read_cancel = some h.next_context; reading = true }) h) {
        next_context = h.next_context + 1;
      }

unfoldable pub trigger_section_read : String → Hub → Hub
trigger_section_read section_name h = elim (h.sections section_name) [
  | none ↦ h
  | some sec ↦ note (read_started section_name h.next_context) (start_context section_name sec h)
]

-- The read of a pack, started in the section "bms".
abbrev pub start_pack_read : PackSelection → Section → Hub → Hub
start_pack_read s sec h = note (pack_read_started s h.next_context) (start_context "bms" sec h)

-- A new subscriber of a section: a ProbeGroup list is nil where it is empty here.
abbrev pub is_grouped : Section → Bool
is_grouped sec = elim sec.groups [ [] ↦ false | g ∷ gs ↦ true ]

-- The end of `subscribeClient`.
abbrev pub read_for : Room → ℕ → String → Hub → Option Hub
read_for room c section_name h =
    if h.connected
    then some (trigger_section_read section_name h)
    else send_to_client room c (section_error section_name "not connected to inverter") h

-- `subscribeClient` from the schema on: a client with no room is removed, and nothing else done.
unfoldable pub show_section : Room → ℕ → String → Section → Hub → Option Hub
show_section room c section_name sec h =
    let msg = section_schema (build_section_schema section_name sec.groups) in
    if is_grouped sec
    then if h.closed c
      then none
      else if room h.effects c
      then read_for room c section_name (note (sent c msg) h)
      else remove_client c h
    else read_for room c section_name h

-- The hub with the client in the section.
abbrev pub with_subscriber : ℕ → String → Section → Hub → Hub
with_subscriber c section_name sec h = record (put_section section_name (add_subscriber sec c) h) {
  client_section = λ d. if d == c then section_name else h.client_section d;
  selected_pack = if same_text section_name "bms" then none else h.selected_pack;
}

-- The previous section left.
unfoldable pub leave_previous : ℕ → String → Hub → Hub
leave_previous c section_name h =
    let previous = h.client_section c in
    if not (same_text previous "") && not (same_text previous section_name)
    then unsubscribe_client c previous (cancel_section previous h)
    else h

unfoldable pub subscribe_client : Room → ℕ → String → Hub → Option Hub
unfolding show_section leave_previous
subscribe_client room c section_name h =
    let h1 = leave_previous c section_name h in
    elim (h1.sections section_name) [
      | none ↦ send_to_client room c (section_error section_name "unknown section") h1
      | some sec ↦ show_section room c section_name sec (with_subscriber c section_name sec h1)
    ]

unfoldable pub handle_read_cycle : String → Hub → Hub
handle_read_cycle section_name h = elim (h.sections section_name) [
  | none ↦ h
  | some sec ↦
      if not h.connected
        || (subscriber_count sec == 0 || (sec.reading || (sec.read_once && sec.has_read_once)))
      then h
      else if same_text section_name "bms"
      then elim h.selected_pack [
        | none ↦ trigger_section_read section_name h
        | some s ↦ start_pack_read s sec h
      ]
      else trigger_section_read section_name h
]

-- `if n < low { n = low }; if n > high { n = high }`
unfoldable pub clamp : ℕ → ℕ → ℤ → ℕ
clamp low high (pos n) = if ltb n low then low else if ltb high n then high else n
clamp low high (negsuc n) = low

abbrev pub is_positive : ℤ → Bool
is_positive (pos n) = ltb 0 n
is_positive (negsuc n) = false

-- `TimingConfigPayload`.
pub record TimingConfig : Type 0 where
  pub read_delay_ms : ℤ
  pub pack_settle_ms : ℤ

unfoldable pub configure_pv : AddrSort → ℤ → Hub → Hub
unfolding clamp
configure_pv by channels h = elim (h.sections "pv") [
  | none ↦ h
  | some sec ↦
      let groups = generate_pv_groups (clamp 2 16 channels) in
      let h1 = put_section "pv" (reset_tracker (with_groups by groups sec)) h in
      if h.connected && not (subscriber_count sec == 0) then trigger_section_read "pv" h1 else h1
]

unfoldable pub configure_timing : TimingConfig → Hub → Hub
unfolding clamp
configure_timing tc h =
    let delay = clamp 50 5000 tc.read_delay_ms in
    let h1 =
      if is_positive tc.read_delay_ms
      then note (delay_set delay) (record h { read_delay_ms = delay })
      else h in
    if is_positive tc.pack_settle_ms
    then record h1 { pack_settle_ms = clamp 500 10000 tc.pack_settle_ms }
    else h1

-- `handleConfigure`: `channels` are those of `msg.Config`, if it is there.
unfoldable pub handle_configure : AddrSort → String → Option ℤ → Option TimingConfig → Hub → Hub
unfolding configure_pv configure_timing
handle_configure by section none timing h = h
handle_configure by section (some channels) timing h =
    if same_text section "pv"
    then configure_pv by channels h
    else if same_text section "timing"
    then elim timing [ none ↦ h | some tc ↦ configure_timing tc h ]
    else h

-- The input of a selection: the one there is, whatever is asked for.
abbrev pub valid_input : ℤ → ℕ
valid_input (pos n) = if ltb n 1 || ltb topo_inputs n then 1 else n
valid_input (negsuc n) = 1

-- The selection that coordinates are cut to.
unfoldable pub selection : ℕ → ℤ → ℤ → ℤ → PackSelection
unfolding clamp
selection c input tower pack = record {
  input = valid_input input;
  tower = clamp 1 topo_towers tower;
  pack = clamp 1 topo_packs_per_tower pack;
  client = c;
}

unfoldable pub handle_select_pack : ℕ → ℤ → ℤ → ℤ → Hub → Hub
unfolding selection
handle_select_pack c input tower pack h =
    let s = selection c input tower pack in
    let h1 = record h { selected_pack = some s; pack_span_tracker = reset h.pack_span_tracker } in
    elim (h.sections "bms") [ none ↦ h1 | some sec ↦ start_pack_read s sec h1 ]

-- `InboundMessage`, by its type, with the fields that are read of it.
pub data InboundMessage : Type 0 where
  connect : String → ℤ → ℤ → InboundMessage
  disconnect : InboundMessage
  subscribe unsubscribe refresh read_cycle : String → InboundMessage
  configure : String → Option ℤ → Option TimingConfig → InboundMessage
  select_pack : ℤ → ℤ → ℤ → InboundMessage
  unknown : InboundMessage

-- byte(n)
abbrev pub byte_of : ℤ → ℕ
byte_of (pos n) = n % 256
byte_of (negsuc n) = 255 - n % 256

-- The cache of a read-once section, dropped.
abbrev pub forget_read : String → Hub → Hub
forget_read section_name h = elim (h.sections section_name) [
  | none ↦ h
  | some sec ↦
      if sec.read_once then put_section section_name (record sec { has_read_once = false }) h else h
]

unfoldable pub handle_command : AddrSort → Room → ℕ → InboundMessage → Hub → Option Hub
unfolding handle_read_cycle handle_configure handle_select_pack subscribe_client
    trigger_section_read
handle_command by room c (connect host port slave_id) h =
    some
      (note (reconfigure_asked (utf8 host ++ (utf8 ":" ++ integer_text port)) (byte_of slave_id)) h)
handle_command by room c disconnect h = some (note disconnect_asked (each_section cancelled h))
handle_command by room c (subscribe section) h = subscribe_client room c section h
handle_command by room c (unsubscribe section) h = some (unsubscribe_client c section h)
handle_command by room c (refresh section) h =
    some (trigger_section_read section (forget_read section h))
handle_command by room c (read_cycle section) h = some (handle_read_cycle section h)
handle_command by room c (configure section channels timing) h =
    some (handle_configure by section channels timing h)
handle_command by room c (select_pack input tower pack) h =
    some (handle_select_pack c input tower pack h)
handle_command by room c unknown h = some h

-- The battery section rebuilt for so many channels, its schema shown.
abbrev pub rebuild_battery : AddrSort → Room → (Section → Section) → ℕ → Section → Hub → Option Hub
rebuild_battery by room f channels sec h =
    let groups = battery_section_groups channels in
    broadcast_result_to_section room "battery"
      (section_schema (build_section_schema "battery" groups))
      (put_section "battery" (f (with_groups by groups sec)) h)

-- The trackers start afresh, and the battery section with two channels.
unfoldable pub connection_made : AddrSort → Room → Hub → Option Hub
connection_made by room h =
    let h1 = record (each_section reset_tracker h) {
      connected = true;
      pack_span_tracker = reset h.pack_span_tracker;
    } in
    elim (h1.sections "battery") [
      | none ↦ some h1
      | some sec ↦ rebuild_battery by room (λ s. s) 2 sec h1
    ]

unfoldable pub connection_lost : Hub → Hub
connection_lost h = record (each_section cancelled h) { connected = false }

-- `handleStateEvent`: the text of the event's error is empty where there is none.
unfoldable pub handle_state_event : AddrSort → Room → State → String → Hub → Option Hub
unfolding connection_made connection_lost
handle_state_event by room state err_msg h =
    broadcast_all room (connection_state (state_string state) err_msg) h >>= λ h1. elim state [
      | connected ↦ connection_made by room h1
      | disconnected ↦ some (connection_lost h1)
      | reconnecting ↦ some (connection_lost h1)
      | dormant ↦ some h1
      | connecting ↦ some h1
    ]

-- ===== src/Hub/Commands/Safety.antt =====
-- internal/hub/hub.go: the handlers leave the hub sound, and panic for no client that is open.
use sofar_hyd_diag.Prelude.{
  ℕ, ◌≤◌, ◌≡◌, refl, sym, ap, ◌∙◌, inl, inr, Bool, true, false, not, ◌&&◌, ◌||◌, String, Option,
  none, some, List, ◌∷◌, ◌++◌, utf8, ◌==◌, if◌then◌else◌, Option-cases, arith,
}
use text.Mathlib.Text.{◌==◌ as same_text}
use text.Mathlib.TextEquality.{eq_iff}
use sofar_hyd_diag.Register.Generated.{generate_pv_groups}
use sofar_hyd_diag.Register.Format.{ℤ, pos, negsuc, integer_text}
use sofar_hyd_diag.Register.Batch.Sorting.{AddrSort}
use sofar_hyd_diag.Broker.State.{
  State, connected, disconnected, reconnecting, dormant, connecting, state_string,
}
use sofar_hyd_diag.Hub.Message.{section_schema, connection_state}
use sofar_hyd_diag.Hub.Section.{Section, is_member, cancel_read, subscriber_count}
use sofar_hyd_diag.Hub.Reads.{
  topo_inputs, topo_towers, topo_packs_per_tower, build_section_schema, battery_section_groups,
}
use sofar_hyd_diag.Hub.State.{
  PackSelection, Hub, Effect, delay_set, pack_read_started, reconfigure_asked, disconnect_asked,
  Room, note, put_section, each_section, cancelled, reset_tracker, with_groups, broadcast_all,
}
use sofar_hyd_diag.Hub.State.Soundness.{
  InTopology, IsSound, IsSafe, bind-IsSafe, if-IsSound, note-IsSound, put_section-IsSound,
  each_section-IsSound,
}
use sofar_hyd_diag.Hub.State.Leaving.{
  unsubscribe_client-IsSound, broadcast_all-IsSafe, broadcast_result_to_section-IsSafe,
}
use sofar_hyd_diag.Hub.SpanTracker.{reset}
use sofar_hyd_diag.Hub.Commands.{
  forget_read, byte_of, start_context, trigger_section_read, start_pack_read, handle_read_cycle,
  clamp, TimingConfig, configure_pv, configure_timing, handle_configure, valid_input, is_positive,
  selection, handle_select_pack, InboundMessage, connect, disconnect, subscribe, unsubscribe,
  refresh, read_cycle, configure, select_pack, unknown, handle_command, connection_made,
  connection_lost, rebuild_battery, handle_state_event,
}
use sofar_hyd_diag.Hub.Commands.Subscribing.{
  start_context-IsSound, trigger_section_read-IsSound, subscribe_client-IsSafe,
}

start_pack_read-IsSound :
    (p : PackSelection) (sec : Section) (h : Hub)
    → h.sections "bms" ≡ some sec
    → IsSound h
    → IsSound (start_pack_read p sec h)
start_pack_read-IsSound p sec h found s =
    note-IsSound (pack_read_started p h.next_context) (start_context "bms" sec h)
      (start_context-IsSound "bms" sec h found s)

pub handle_read_cycle-IsSound :
    (name : String) (h : Hub) → IsSound h → IsSound (handle_read_cycle name h)
unfolding handle_read_cycle
handle_read_cycle-IsSound name h s = elim (Option-cases (h.sections name)) [
  | inl missing ↦ rw (missing, handle_read_cycle) s
  | inr (sec, found) ↦
      rw (found, handle_read_cycle)
        (if-IsSound
          (not h.connected
            || (subscriber_count sec == 0 || (sec.reading || (sec.read_once && sec.has_read_once))))
          _ _ (λ _. s)
          (λ _.
            if-IsSound (same_text name "bms") _ _
              (λ bms. bms_cycle sec found ((eq_iff name "bms").0 bms))
              (λ _. trigger_section_read-IsSound name h s)))
]
  where
    bms_cycle :
        (sec : Section)
        → h.sections name ≡ some sec
        → name ≡ "bms"
        → IsSound (elim h.selected_pack as (λ _. Hub) [
          | none ↦ trigger_section_read name h
          | some p ↦ start_pack_read p sec h
        ])
    bms_cycle sec found bms = elim (Option-cases h.selected_pack) [
      | inl e ↦ rw e (trigger_section_read-IsSound name h s)
      | inr (p, e) ↦ rw e (start_pack_read-IsSound p sec h (ap h.sections (sym bms) ∙ found) s)
    ]

pub configure_pv-IsSound :
    (by : AddrSort) (channels : ℤ) (h : Hub) → IsSound h → IsSound (configure_pv by channels h)
unfolding configure_pv
configure_pv-IsSound by channels h s = elim (Option-cases (h.sections "pv")) [
  | inl missing ↦ rw (missing, configure_pv) s
  | inr (sec, found) ↦
      let sec' = reset_tracker (with_groups by (generate_pv_groups (clamp 2 16 channels)) sec) in
      let s1 = put_section-IsSound "pv" sec sec' h found (λ c is_in. is_in) s in
      rw (found, configure_pv)
        (if-IsSound (h.connected && not (subscriber_count sec == 0)) _ _
          (λ _. trigger_section_read-IsSound "pv" (put_section "pv" sec' h) s1) (λ _. s1))
]

clamp-bounds :
    (low high : ℕ) (n : ℤ) → low ≤ high → (low ≤ clamp low high n) × (clamp low high n ≤ high)
unfolding clamp
clamp-bounds low high (pos n) less = ground arith
clamp-bounds low high (negsuc n) less = ground arith

-- Other settings, within their bounds, and other effects.
with_settings-IsSound :
    (delay settle : ℕ) (selected : Option PackSelection) (es : List Effect) (h : Hub)
    → IsSound h
    → (50 ≤ delay) × (delay ≤ 5000) × (500 ≤ settle) × (settle ≤ 10000) × InTopology selected
    → IsSound (record h {
      read_delay_ms = delay;
      pack_settle_ms = settle;
      selected_pack = selected;
      effects = es;
    })
with_settings-IsSound delay settle selected es h s bounds = record {
  registered = s.registered;
  subscribed = s.subscribed;
  no_empty_name = s.no_empty_name;
  in_bounds = bounds;
}

pub configure_timing-IsSound :
    (tc : TimingConfig) (h : Hub) → IsSound h → IsSound (configure_timing tc h)
unfolding configure_timing
configure_timing-IsSound tc h s =
    let (d, d', p, p', t) = s.in_bounds in
    let (e, e') = clamp-bounds 50 5000 tc.read_delay_ms (omega arith) in
    let (q, q') = clamp-bounds 500 10000 tc.pack_settle_ms (omega arith) in
    let delay = clamp 50 5000 tc.read_delay_ms in
    let h1 =
      if is_positive tc.read_delay_ms
      then note (delay_set delay) (record h { read_delay_ms = delay })
      else h in
    let s1 : IsSound h1 =
      if-IsSound (is_positive tc.read_delay_ms) _ _
        (λ _.
          with_settings-IsSound delay h.pack_settle_ms h.selected_pack (delay_set delay ∷ h.effects)
            h s (e, e', p, p', t))
        (λ _. s) in
    let (d1, d1', p1, p1', t1) = s1.in_bounds in
    if-IsSound (is_positive tc.pack_settle_ms) _ _
      (λ _.
        with_settings-IsSound h1.read_delay_ms (clamp 500 10000 tc.pack_settle_ms) h1.selected_pack
          h1.effects h1 s1 (d1, d1', q, q', t1))
      (λ _. s1)

valid_input-bounds : (n : ℤ) → (1 ≤ valid_input n) × (valid_input n ≤ topo_inputs)
valid_input-bounds (pos n) = ground arith
valid_input-bounds (negsuc n) = ground arith

selection-InTopology :
    (c : ℕ) (input tower pack : ℤ) → InTopology (some (selection c input tower pack))
unfolding selection
selection-InTopology c input tower pack =
    let (t, t') = clamp-bounds 1 topo_towers tower (omega arith) in
    let (p, p') = clamp-bounds 1 topo_packs_per_tower pack (omega arith) in
    let (i, i') = valid_input-bounds input in (i, i', t, t', p, p')

pub handle_select_pack-IsSound :
    (c : ℕ) (input tower pack : ℤ) (h : Hub)
    → IsSound h
    → IsSound (handle_select_pack c input tower pack h)
unfolding handle_select_pack
handle_select_pack-IsSound c input tower pack h s =
    let p = selection c input tower pack in
    let (d, d', q, q', _) = s.in_bounds in
    let t =
      with_settings-IsSound h.read_delay_ms h.pack_settle_ms (some p) h.effects h s
        (d, d', q, q', selection-InTopology c input tower pack) in
    let h1 = record h { selected_pack = some p; pack_span_tracker = reset h.pack_span_tracker } in
    let s1 : IsSound h1 = record {
      registered = t.registered;
      subscribed = t.subscribed;
      no_empty_name = t.no_empty_name;
      in_bounds = t.in_bounds;
    } in
    elim (Option-cases (h.sections "bms")) [
      | inl missing ↦ rw (missing, handle_select_pack) s1
      | inr (sec, found) ↦
          rw (found, handle_select_pack) (start_pack_read-IsSound p sec h1 found s1)
    ]

pub handle_configure-IsSound :
    (by : AddrSort) (section : String) (channels : Option ℤ) (timing : Option TimingConfig)
    (h : Hub)
    → IsSound h
    → IsSound (handle_configure by section channels timing h)
unfolding handle_configure
handle_configure-IsSound by section none timing h s = s
handle_configure-IsSound by section (some channels) none h s =
    if-IsSound (same_text section "pv") _ _ (λ _. configure_pv-IsSound by channels h s)
      (λ _. if-IsSound (same_text section "timing") _ _ (λ _. s) (λ _. s))
handle_configure-IsSound by section (some channels) (some tc) h s =
    if-IsSound (same_text section "pv") _ _ (λ _. configure_pv-IsSound by channels h s)
      (λ _.
        if-IsSound (same_text section "timing") _ _ (λ _. configure_timing-IsSound tc h s) (λ _. s))

forget_read-IsSound : (name : String) (h : Hub) → IsSound h → IsSound (forget_read name h)
forget_read-IsSound name h s = elim (Option-cases (h.sections name)) [
  | inl missing ↦ rw (missing, forget_read) s
  | inr (sec, found) ↦
      rw (found, forget_read)
        (if-IsSound sec.read_once _ _
          (λ _.
            put_section-IsSound name sec (record sec { has_read_once = false }) h found
              (λ c is_in. is_in) s)
          (λ _. s))
]

-- Whether the client's channel is open.
abbrev pub IsOpen : ℕ → Hub → Type 0
IsOpen c h = h.closed c ≡ false

-- Whether the message subscribes.
abbrev pub subscribes : InboundMessage → Bool
subscribes (subscribe section) = true
subscribes _ = false

pub handle_command-IsSafe :
    (by : AddrSort) (room : Room) (c : ℕ) (msg : InboundMessage) (h : Hub)
    → IsSound h
    → (subscribes msg ≡ true → IsOpen c h)
    → IsSafe (handle_command by room c msg h)
unfolding handle_command cancel_read
handle_command-IsSafe by room c (connect host port slave_id) h s is_open =
    note-IsSound
      (reconfigure_asked (utf8 host ++ (utf8 ":" ++ integer_text port)) (byte_of slave_id)) h s
handle_command-IsSafe by room c disconnect h s is_open =
    note-IsSound disconnect_asked (each_section cancelled h)
      (each_section-IsSound cancelled h (λ sec. refl) s)
handle_command-IsSafe by room c (subscribe section) h s is_open =
    subscribe_client-IsSafe room c section h s (is_open refl)
handle_command-IsSafe by room c (unsubscribe section) h s is_open =
    unsubscribe_client-IsSound c section h s
handle_command-IsSafe by room c (refresh section) h s is_open =
    trigger_section_read-IsSound section (forget_read section h) (forget_read-IsSound section h s)
handle_command-IsSafe by room c (read_cycle section) h s is_open =
    handle_read_cycle-IsSound section h s
handle_command-IsSafe by room c (configure section channels timing) h s is_open =
    handle_configure-IsSound by section channels timing h s
handle_command-IsSafe by room c (select_pack input tower pack) h s is_open =
    handle_select_pack-IsSound c input tower pack h s
handle_command-IsSafe by room c unknown h s is_open = s

pub rebuild_battery-IsSafe :
    (by : AddrSort) (room : Room) (f : Section → Section) (channels : ℕ) (sec : Section) (h : Hub)
    → ((sec' : Section) → (f sec').subscribers ≡ sec'.subscribers)
    → h.sections "battery" ≡ some sec
    → IsSound h
    → IsSafe (rebuild_battery by room f channels sec h)
rebuild_battery-IsSafe by room f channels sec h same found s =
    let groups = battery_section_groups channels in
    let sec' = with_groups by groups sec in
    broadcast_result_to_section-IsSafe room "battery"
      (section_schema (build_section_schema "battery" groups)) (put_section "battery" (f sec') h)
      (put_section-IsSound "battery" sec (f sec') h found
        (λ c is_in. sym (ap (is_member c) (same sec')) ∙ is_in) s)

connection_made-IsSafe :
    (by : AddrSort) (room : Room) (h : Hub) → IsSound h → IsSafe (connection_made by room h)
unfolding connection_made
connection_made-IsSafe by room h s =
    let h1 = record (each_section reset_tracker h) {
      connected = true;
      pack_span_tracker = reset h.pack_span_tracker;
    } in
    let t = each_section-IsSound reset_tracker h (λ sec. refl) s in
    let s1 : IsSound h1 = record {
      registered = t.registered;
      subscribed = t.subscribed;
      no_empty_name = t.no_empty_name;
      in_bounds = t.in_bounds;
    } in
    by_battery h1 s1 (h1.sections "battery") refl
  where
    by_battery :
        (h1 : Hub)
        → IsSound h1
        → (o : Option Section) → h1.sections "battery" ≡ o
        → IsSafe (elim o as (λ _. Option Hub) [
          | none ↦ some h1
          | some sec ↦ rebuild_battery by room (λ s. s) 2 sec h1
        ])
    by_battery h1 s1 none missing = s1
    by_battery h1 s1 (some sec) found =
        rebuild_battery-IsSafe by room (λ s. s) 2 sec h1 (λ sec. refl) found s1

connection_lost-IsSound : (h : Hub) → IsSound h → IsSound (connection_lost h)
unfolding connection_lost cancel_read
connection_lost-IsSound h s =
    let t = each_section-IsSound cancelled h (λ sec. refl) s in
    record {
      registered = t.registered;
      subscribed = t.subscribed;
      no_empty_name = t.no_empty_name;
      in_bounds = t.in_bounds;
    }

pub handle_state_event-IsSafe :
    (by : AddrSort) (room : Room) (state : State) (err_msg : String) (h : Hub)
    → IsSound h
    → IsSafe (handle_state_event by room state err_msg h)
unfolding handle_state_event
handle_state_event-IsSafe by room state err_msg h s =
    bind-IsSafe (broadcast_all room (connection_state (state_string state) err_msg) h) _
      (broadcast_all-IsSafe room (connection_state (state_string state) err_msg) h s)
      (λ h1 s1. by_state state h1 s1)
  where
    by_state :
        (state : State) (h1 : Hub)
        → IsSound h1
        → IsSafe (elim state as (λ _. Option Hub) [
          | connected ↦ connection_made by room h1
          | disconnected ↦ some (connection_lost h1)
          | reconnecting ↦ some (connection_lost h1)
          | dormant ↦ some h1
          | connecting ↦ some h1
        ])
    by_state connected h1 s1 = connection_made-IsSafe by room h1 s1
    by_state disconnected h1 s1 = connection_lost-IsSound h1 s1
    by_state reconnecting h1 s1 = connection_lost-IsSound h1 s1
    by_state dormant h1 s1 = s1
    by_state connecting h1 s1 = s1

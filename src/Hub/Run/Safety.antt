-- ===== src/Hub/Run/Safety.antt =====
-- internal/hub/hub.go: the event loop leaves the hub sound, and does not panic.
use sofar_hyd_diag.Prelude.{
  ℕ, ◌≡◌, refl, ap, ◌∙◌, subst, inl, inr, Bool, true, false, not, ◌&&◌, String, none, some, List,
  [], ◌∷◌, ◌==◌, ==_iff, if◌then◌else◌, Bool-cases, Option-cases, arith, all_of-All, All,
}
use text.Mathlib.Text.{◌==◌ as same_text}
use sofar_hyd_diag.Register.Format.{ℤ}
use sofar_hyd_diag.Register.Probe.{ProbeGroup}
use sofar_hyd_diag.Register.Batch.Sorting.{AddrSort}
use sofar_hyd_diag.Broker.State.{state_string}
use sofar_hyd_diag.Hub.Message.{HubMessage, connection_state}
use sofar_hyd_diag.Hub.Section.{new_grouped_section}
use sofar_hyd_diag.Hub.Sections.{builtin_sections}
use sofar_hyd_diag.Hub.State.{Hub, Room, reset_tracker, is_client, is_subscribed, has_subscriber}
use sofar_hyd_diag.Hub.State.Soundness.{
  IsSound, IsSafe, bind-IsSafe, if-IsSound, put_section-IsSound,
}
use sofar_hyd_diag.Hub.State.Leaving.{
  remove_client-IsSafe, send_to_client-IsSafe, broadcast_result_to_section-IsSafe,
}
use sofar_hyd_diag.Hub.Commands.{rebuild_battery}
use sofar_hyd_diag.Hub.Commands.Subscribing.{trigger_section_read-IsSound}
use sofar_hyd_diag.Hub.Commands.Safety.{
  IsOpen, subscribes, handle_command-IsSafe, rebuild_battery-IsSafe, handle_state_event-IsSafe,
}
use sofar_hyd_diag.Hub.Run.{
  new_hub, register_grouped_section, register_sections, section_names, register_builtin_sections,
  HubEvent, registered, unregistered, command, state_event, result, dropped, channels_found,
  read_done, with_client, is_complete, mark_read, reading_over, channels_changed, handle_event,
  run_events, started,
}

with_client-IsSound : (c : ℕ) (h : Hub) → IsSound h → IsOpen c h → IsSound (with_client c h)
with_client-IsSound c h s is_open =
    if-IsSound (is_client h c) _ _ (λ _. s)
      (λ _. record {
        registered = λ d there. elim (Bool-cases (d == c)) [
          | inl same ↦ ap h.closed ((==_iff d c).0 same) ∙ is_open
          | inr other ↦ s.registered d (ground arith)
        ];
        subscribed = s.subscribed;
        no_empty_name = s.no_empty_name;
        in_bounds = s.in_bounds;
      })

with_client-IsOpen : (c : ℕ) (h : Hub) → IsOpen c h → IsOpen c (with_client c h)
with_client-IsOpen c h is_open = elim (Bool-cases (is_client h c)) [
  | inl there ↦ rw (there, with_client) is_open
  | inr new ↦ rw (new, with_client) is_open
]

mark_read-IsSound :
    (section : String) (msg : HubMessage) (h : Hub) → IsSound h → IsSound (mark_read section msg h)
mark_read-IsSound section msg h s = elim (Option-cases (h.sections section)) [
  | inl missing ↦ rw (missing, mark_read) s
  | inr (sec, found) ↦
      rw (found, mark_read)
        (if-IsSound (is_complete msg && (sec.read_once && not sec.has_read_once)) _ _
          (λ _.
            put_section-IsSound section sec (record sec { has_read_once = true }) h found
              (λ c is_in. is_in) s)
          (λ _. s))
]

reading_over-IsSound :
    (section : String) (context : ℕ) (h : Hub)
    → IsSound h
    → IsSound (reading_over section context h)
reading_over-IsSound section context h s = elim (Option-cases (h.sections section)) [
  | inl missing ↦ rw (missing, reading_over) s
  | inr (sec, found) ↦
      rw (found, reading_over)
        (put_section-IsSound section sec (record sec { reading = false }) h found (λ c is_in. is_in)
          s)
]

channels_changed-IsSafe :
    (by : AddrSort) (room : Room) (channels : ℕ) (h : Hub)
    → IsSound h
    → IsSafe (channels_changed by room channels h)
channels_changed-IsSafe by room channels h s = elim (Option-cases (h.sections "battery")) [
  | inl missing ↦ rw (missing, channels_changed) s
  | inr (sec, found) ↦
      rw (found, channels_changed)
        (bind-IsSafe (rebuild_battery by room reset_tracker channels sec h) _
          (rebuild_battery-IsSafe by room reset_tracker channels sec h (λ sec'. refl) found s)
          (λ h1 s1. trigger_section_read-IsSound "battery" h1 s1))
]

-- What an event needs: that a client which registers or subscribes is open.
abbrev pub IsHeard : HubEvent → Hub → Type 0
IsHeard (registered c state) h = IsOpen c h
IsHeard (command c msg) h = subscribes msg ≡ true → IsOpen c h
IsHeard _ h = Unit {0}

pub handle_event-IsSafe :
    (by : AddrSort) (room : Room) (e : HubEvent) (h : Hub)
    → IsSound h
    → IsHeard e h
    → IsSafe (handle_event by room e h)
unfolding handle_event
handle_event-IsSafe by room (registered c state) h s is_open =
    send_to_client-IsSafe room c (connection_state (state_string state) "") (with_client c h)
      (with_client-IsSound c h s is_open) (with_client-IsOpen c h is_open)
handle_event-IsSafe by room (unregistered c) h s _ = remove_client-IsSafe c h s
handle_event-IsSafe by room (command c msg) h s is_open =
    handle_command-IsSafe by room c msg h s is_open
handle_event-IsSafe by room (state_event state err_msg) h s _ =
    handle_state_event-IsSafe by room state err_msg h s
handle_event-IsSafe by room (result section msg) h s _ =
    broadcast_result_to_section-IsSafe room section msg (mark_read section msg h)
      (mark_read-IsSound section msg h s)
handle_event-IsSafe by room (dropped c) h s _ = remove_client-IsSafe c h s
handle_event-IsSafe by room (channels_found channels) h s _ =
    channels_changed-IsSafe by room channels h s
handle_event-IsSafe by room (read_done section context) h s _ =
    reading_over-IsSound section context h s

-- What all events need, each in the hub that it meets.
abbrev pub AllHeard : AddrSort → Room → List HubEvent → Hub → Type 0
AllHeard by room [] h = Unit
AllHeard by room (e ∷ es) h = IsHeard e h × elim (handle_event by room e h) as (λ _. Type 0) [
  | none ↦ Unit
  | some h1 ↦ AllHeard by room es h1
]

-- The new section is in the hub, and no client is in it.
register_grouped_section-IsSound :
    (by : AddrSort) (name : String) (groups : List ProbeGroup) (h : Hub)
    → same_text "" name ≡ false
    → IsSound h
    → IsSound (register_grouped_section by name groups h)
unfolding new_grouped_section
register_grouped_section-IsSound by name groups h named s = record {
  registered = s.registered;
  subscribed = λ n c is_in. s.subscribed n c (were_there n c is_in);
  no_empty_name = rw named s.no_empty_name;
  in_bounds = s.in_bounds;
}
  where
    by_test :
        (n : String) (c : ℕ) (b : Bool)
        → has_subscriber (if b then some (new_grouped_section by name groups) else h.sections n) c
          ≡ true
        → is_subscribed n h c ≡ true
    by_test n c true is_in = absurd (ground arith)
    by_test n c false is_in = is_in

    were_there :
        (n : String) (c : ℕ)
        → is_subscribed n (register_grouped_section by name groups h) c ≡ true
        → is_subscribed n h c ≡ true
    were_there n c is_in = by_test n c (same_text n name) is_in

register_sections-IsSound :
    (by : AddrSort) (names : List String) (gss : List (List ProbeGroup)) (h : Hub)
    → All (λ name. not (same_text "" name) ≡ true) names
    → IsSound h
    → IsSound (register_sections by names gss h)
unfolding register_sections
register_sections-IsSound by [] gss h named s = s
register_sections-IsSound by (name ∷ names) [] h named s = s
register_sections-IsSound by (name ∷ names) (gs ∷ gss) h named s =
    register_sections-IsSound by names gss (register_grouped_section by name gs h) named.1
      (register_grouped_section-IsSound by name gs h (ground arith) s)

new_hub-IsSound : (pv_channels : ℤ) → IsSound (new_hub pv_channels)
unfolding new_hub
new_hub-IsSound pv_channels = record {
  registered = λ c there. refl;
  subscribed = λ n c is_in. absurd (ground arith);
  no_empty_name = refl;
  in_bounds = (omega arith, omega arith, omega arith, omega arith, tt);
}

pub started-IsSound : (by : AddrSort) (pv_channels : ℤ) → IsSound (started by pv_channels)
unfolding register_builtin_sections
started-IsSound by pv_channels =
    let h = new_hub pv_channels in
    let h1 = register_sections by section_names (builtin_sections h.default_pv_channels) h in
    let s1 =
      register_sections-IsSound by section_names (builtin_sections h.default_pv_channels) h
        (all_of-All (λ name. not (same_text "" name)) section_names refl)
        (new_hub-IsSound pv_channels) in
    elim (Option-cases (h1.sections "configuration")) [
      | inl missing ↦ rw (missing, register_builtin_sections) s1
      | inr (sec, found) ↦
          rw (found, register_builtin_sections)
            (put_section-IsSound "configuration" sec (record sec { read_once = true }) h1 found
              (λ c is_in. is_in) s1)
    ]

run_from-IsSafe :
    (by : AddrSort) (room : Room) (es : List HubEvent) (h : Hub)
    → IsSound h
    → AllHeard by room es h
    → IsSafe (run_events by room es h)
unfolding run_events
run_from-IsSafe by room [] h s heard = s
run_from-IsSafe by room (e ∷ es) h s heard = elim (Option-cases (handle_event by room e h)) [
  | inl panics ↦ absurd (subst IsSafe panics (handle_event-IsSafe by room e h s heard.0))
  | inr (h1, goes_on) ↦ rw goes_on (
      run_from-IsSafe by room es h1
        (subst IsSafe goes_on (handle_event-IsSafe by room e h s heard.0))
        (subst (λ o. elim o as (λ _. Type 0) [ none ↦ Unit {0} | some h1 ↦ AllHeard by room es h1 ])
          goes_on heard.1))
]

-- Whatever events arrive from the start of the server on, of any number of clients, in any order
-- and with any room in the clients' buffers, the hub does not panic and is sound after them, if no
-- client registers or subscribes that the hub has closed before: a registered client is open, a
-- subscriber of a section is open and in no other section, the read delay is within 50 and 5000 ms,
-- the settling time within 500 and 10000 ms, and the selected pack one of the topology.
pub run_events-IsSafe :
    (by : AddrSort) (room : Room) (pv_channels : ℤ) (es : List HubEvent)
    → AllHeard by room es (started by pv_channels)
    → IsSafe (run_events by room es (started by pv_channels))
run_events-IsSafe by room pv_channels es heard =
    run_from-IsSafe by room es (started by pv_channels) (started-IsSound by pv_channels) heard

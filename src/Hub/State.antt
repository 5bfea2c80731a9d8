-- ===== src/Hub/State.antt =====
-- internal/hub/hub.go: the hub, its clients and what it does to a client or a section. A client is
-- a number. A send on the closed channel of a client panics, which is none here; whether a client's
-- channel has room is answered from what the hub did so far. A map is walked in its list's order.
pub mod Leaving
pub mod Soundness
use sofar_hyd_diag.Prelude.{
  ℕ, ◌+◌, Bool, true, false, not, ◌&&◌, ◌||◌, String, Option, none, some, List, [], ◌∷◌, ◌==◌, keep,
  if◌then◌else◌,
}
use text.Mathlib.Text.{◌==◌ as same_text}
use sofar_hyd_diag.Register.Probe.{ProbeGroup, flatten_probe_groups}
use sofar_hyd_diag.Register.Batch.{analyze_batch_plan}
use sofar_hyd_diag.Register.Batch.Sorting.{AddrSort}
use sofar_hyd_diag.Hub.Message.{HubMessage}
use sofar_hyd_diag.Hub.SpanTracker.{SpanTracker, reset}
use sofar_hyd_diag.Hub.Section.{
  Section, is_member, cancel_read, remove_subscriber, subscriber_count,
}

-- `packSelection`.
pub record PackSelection : Type 0 where
  pub input : ℕ
  pub tower : ℕ
  pub pack : ℕ
  pub client : ℕ

-- What the hub does: a read is started with a context.
pub data Effect : Type 0 where
  sent : ℕ → HubMessage → Effect
  read_started : String → ℕ → Effect
  pack_read_started : PackSelection → ℕ → Effect
  reconfigure_asked : List ℕ → ℕ → Effect
  disconnect_asked : Effect
  delay_set : ℕ → Effect

-- `client_section` and `closed` are fields of a client. `next_context` numbers the contexts.
pub record Hub : Type 0 where
  pub clients : List ℕ
  pub client_section : ℕ → String
  pub closed : ℕ → Bool
  pub sections : String → Option Section
  pub connected : Bool
  pub default_pv_channels : ℕ
  pub selected_pack : Option PackSelection
  pub read_delay_ms : ℕ
  pub pack_settle_ms : ℕ
  pub pack_span_tracker : SpanTracker
  pub next_context : ℕ
  pub effects : List Effect

-- Whether the channel of a client has room.
abbrev pub Room : Type 0
Room = List Effect → ℕ → Bool

infixl 5 ◌>>=◌
abbrev pub ◌>>=◌ {ℓ κ} : {A : Type ℓ} {B : Type κ} → Option A → (A → Option B) → Option B
none >>= f = none
some a >>= f = f a

abbrev pub note : Effect → Hub → Hub
note e h = record h { effects = e ∷ h.effects }

-- A section of the hub, changed.
abbrev pub put_section : String → Section → Hub → Hub
put_section name sec h = record h {
  sections = λ n. if same_text n name then some sec else h.sections n;
}

-- `for _, sec := range h.sections`
abbrev pub each_section : (Section → Section) → Hub → Hub
each_section f h = record h {
  sections = λ n. elim (h.sections n) [ none ↦ none | some sec ↦ some (f sec) ];
}

abbrev pub cancelled : Section → Section
cancelled sec = cancel_read sec

-- `h.sections[name].cancelRead()`, if there is one.
abbrev pub cancel_section : String → Hub → Hub
cancel_section name h = elim (h.sections name) [
  | none ↦ h
  | some sec ↦ put_section name (cancelled sec) h
]

-- `sec.SpanTracker.Reset()`
abbrev pub reset_tracker : Section → Section
reset_tracker sec = record sec {
  span_tracker = elim sec.span_tracker [ none ↦ none | some t ↦ some (reset t) ];
}

-- Other groups for a section: `Groups`, `Probes` and `BatchPlan`.
abbrev pub with_groups : AddrSort → List ProbeGroup → Section → Section
with_groups by groups sec = record sec {
  groups = groups;
  probes = flatten_probe_groups groups;
  batch_plan = analyze_batch_plan by.sort groups;
}

-- The section without the client, its read cancelled if that was the last one.
unfoldable pub left_section : Section → ℕ → Section
left_section sec c =
    let sec' = remove_subscriber sec c in
    if subscriber_count sec' == 0 then cancelled sec' else sec'

-- The hub without the client's subscription of a section.
abbrev pub without_subscriber : ℕ → String → Section → Hub → Hub
without_subscriber c section_name sec h = record (put_section section_name (left_section sec c) h) {
  client_section =
      λ d. if d == c && same_text (h.client_section c) section_name then "" else h.client_section d;
  selected_pack = if same_text section_name "bms" then none else h.selected_pack;
}

unfoldable pub unsubscribe_client : ℕ → String → Hub → Hub
unfolding left_section
unsubscribe_client c section_name h = elim (h.sections section_name) [
  | none ↦ h
  | some sec ↦ without_subscriber c section_name sec h
]

-- `delete(h.clients, c)` and `close(c.send)`.
abbrev pub close_client : ℕ → Hub → Option Hub
close_client c h =
    if h.closed c
    then none
    else some (record h {
      clients = keep (λ d. not (d == c)) h.clients;
      closed = λ d. d == c || h.closed d;
    })

unfoldable pub remove_client : ℕ → Hub → Option Hub
unfolding unsubscribe_client
remove_client c h =
    if not (is_member c h.clients)
    then some h
    else close_client c (
        if same_text (h.client_section c) ""
        then h
        else unsubscribe_client c (h.client_section c) h)

-- `select { case c.send <- data: default: h.removeClient(c) }`
unfoldable pub send_to_client : Room → ℕ → HubMessage → Hub → Option Hub
unfolding remove_client
send_to_client room c msg h =
    if h.closed c
    then none
    else if room h.effects c
    then some (note (sent c msg) h)
    else remove_client c h

-- The loop of a broadcast over some clients, of which those are met that are still in the map.
unfoldable pub broadcast : Room → HubMessage → (Hub → ℕ → Bool) → List ℕ → Hub → Option Hub
unfolding send_to_client
broadcast room msg present [] h = some h
broadcast room msg present (c ∷ cs) h =
    (if present h c then send_to_client room c msg h else some h) >>= broadcast room msg present cs

abbrev pub is_client : Hub → ℕ → Bool
is_client h c = is_member c h.clients

abbrev pub has_subscriber : Option Section → ℕ → Bool
has_subscriber none c = false
has_subscriber (some sec) c = is_member c sec.subscribers

-- Whether the client is a subscriber of the section.
abbrev pub is_subscribed : String → Hub → ℕ → Bool
is_subscribed name h c = has_subscriber (h.sections name) c

unfoldable pub broadcast_all : Room → HubMessage → Hub → Option Hub
broadcast_all room msg h = broadcast room msg is_client h.clients h

unfoldable pub broadcast_result_to_section : Room → String → HubMessage → Hub → Option Hub
broadcast_result_to_section room section_name msg h = elim (h.sections section_name) [
  | none ↦ some h
  | some sec ↦ broadcast room msg (is_subscribed section_name) sec.subscribers h
]

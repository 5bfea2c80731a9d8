-- ===== src/Hub/Run/Delivery.antt =====
-- internal/hub/hub.go: the messages of a read come to the clients of its section.
use mathlib.Core.List.{append_assoc, append-nil}
use sofar_hyd_diag.Prelude.{
  ℕ, suc, ◌+◌, ◌≡◌, refl, sym, ap, ◌∙◌, true, false, not, ◌&&◌, String, some, List, [], ◌∷◌, ◌++◌,
  ◌==◌, map, replicate, if◌then◌else◌, All, Bool-cases, inl, inr, arith,
}
use text.Mathlib.TextPositions.{eq_refl}
use sofar_hyd_diag.Register.Batch.Sorting.{AddrSort}
use sofar_hyd_diag.Hub.Message.{HubMessage}
use sofar_hyd_diag.Hub.Section.{Section, is_member}
use sofar_hyd_diag.Hub.State.{
  Hub, Effect, sent, Room, note, send_to_client, broadcast, is_subscribed,
  broadcast_result_to_section,
}
use sofar_hyd_diag.Hub.Run.{result, is_complete, mark_read, handle_event, run_events}

-- The messages that a client was sent, oldest first.
abbrev pub received : ℕ → List Effect → List HubMessage
received c [] = []
received c (sent d m ∷ es) = received c es ++ (if d == c then m ∷ [] else [])
received c (_ ∷ es) = received c es

-- How often a client stands in the list of a map's keys.
abbrev pub times : ℕ → List ℕ → ℕ
times c [] = 0
times c (d ∷ ds) = (if d == c then 1 else 0) + times c ds

-- The channel of every client has room.
abbrev pub HasRoom : Room → Type 0
HasRoom room = (es : List Effect) (c : ℕ) → room es c ≡ true

abbrev pub AllOpen : Hub → List ℕ → Type 0
AllOpen h = All (λ c. h.closed c ≡ false)

abbrev sent_to : HubMessage → List ℕ → List Effect → List Effect
sent_to msg [] es = es
sent_to msg (c ∷ cs) es = sent_to msg cs (sent c msg ∷ es)

abbrev with_effects : List Effect → Hub → Hub
with_effects es h = record h { effects = es }

received-sent_to :
    (c : ℕ) (msg : HubMessage) (cs : List ℕ) (es : List Effect)
    → received c (sent_to msg cs es) ≡ received c es ++ replicate (times c cs) msg
received-sent_to c msg [] es = sym (append-nil (received c es))
received-sent_to c msg (d ∷ cs) es = elim (Bool-cases (d == c)) [
  | inl same ↦
      let more : 1 + times c cs ≡ suc (times c cs) = omega arith in
      received-sent_to c msg cs (sent d msg ∷ es)
      ∙ rw (same, more) (append_assoc (received c es) (msg ∷ []) (replicate (times c cs) msg))
  | inr other ↦
      let same_times : 0 + times c cs ≡ times c cs = omega arith in
      received-sent_to c msg cs (sent d msg ∷ es)
      ∙ rw (other, same_times, append-nil (received c es)) refl
]

module _ (room : Room) (has_room : HasRoom room) (name : String) (msg : HubMessage) where
  broadcast-open :
      (cs : List ℕ) (h : Hub)
      → All (λ c. is_subscribed name h c ≡ true) cs
      → AllOpen h cs
      → broadcast room msg (is_subscribed name) cs h
        ≡ some (with_effects (sent_to msg cs h.effects) h)
  unfolding broadcast send_to_client
  broadcast-open [] h present is_open = refl
  broadcast-open (c ∷ cs) h present is_open =
      rw (present.0, is_open.0, has_room h.effects c)
        (broadcast-open cs (note (sent c msg) h) present.1 is_open.1)

-- A section with these subscribers, whose channels are open.
pub record Delivers (name : String) (cs : List ℕ) (h : Hub) : Type 0 where
  pub section : Section
  pub found : h.sections name ≡ some section
  pub has_subscribers : section.subscribers ≡ cs
  pub is_open : AllOpen h cs

All-members :
    (cs ds : List ℕ)
    → ((c : ℕ) → is_member c cs ≡ true → is_member c ds ≡ true)
    → All (λ c. is_member c ds ≡ true) cs
All-members [] ds sub = tt
All-members (c ∷ cs) ds sub =
    (sub c (ground arith), All-members cs ds (λ d there. sub d (ground arith)))

Delivers-subscribed :
    (name : String) (cs : List ℕ) (h : Hub)
    → Delivers name cs h
    → All (λ c. is_subscribed name h c ≡ true) cs
Delivers-subscribed name cs h v =
    rw (v.found) (rw v.has_subscribers (All-members cs cs (λ c there. there)))

mark_read-Delivers :
    (name : String) (msg : HubMessage) (cs : List ℕ) (h : Hub)
    → Delivers name cs h
    → Delivers name cs (mark_read name msg h) × ((mark_read name msg h).effects ≡ h.effects)
mark_read-Delivers name msg cs h v =
    let sec = v.section in
    let found = v.found in
    elim (Bool-cases (is_complete msg && (sec.read_once && not sec.has_read_once))) [
      | inr leaves ↦ rw (found, mark_read) (rw leaves (v, refl))
      | inl marks ↦
          rw (found, mark_read)
            (rw marks (
              record {
                section = record sec { has_read_once = true };
                found = rw (eq_refl name) refl;
                has_subscribers = v.has_subscribers;
                is_open = v.is_open;
              },
              refl,
            ))
    ]

module _ (by : AddrSort) (room : Room) (has_room : HasRoom room) (name : String) (cs : List ℕ) where
  result-handled :
      (msg : HubMessage) (h : Hub)
      → Delivers name cs h
      → (h' : Hub) × (handle_event by room (result name msg) h ≡ some h')
        × Delivers name cs h'
        × (h'.effects ≡ sent_to msg cs h.effects)
  unfolding handle_event broadcast_result_to_section
  result-handled msg h v =
      let h1 = mark_read name msg h in
      let (v1, same) = mark_read-Delivers name msg cs h v in
      (
        with_effects (sent_to msg cs h1.effects) h1,
        rw (v1.found, broadcast_result_to_section)
            (rw v1.has_subscribers (
              broadcast-open room has_room name msg cs h1 (Delivers-subscribed name cs h1 v1)
                v1.is_open)),
        record {
          section = v1.section;
          found = v1.found;
          has_subscribers = v1.has_subscribers;
          is_open = v1.is_open;
        },
        ap (sent_to msg cs) same,
      )

  -- Each message comes to a subscriber, in its turn.
  pub results-received :
      (c : ℕ) (msgs : List HubMessage) (h : Hub)
      → times c cs ≡ 1
      → Delivers name cs h
      → (h' : Hub) × (run_events by room (map (result name) msgs) h ≡ some h')
        × (received c h'.effects ≡ received c h.effects ++ msgs)
  unfolding run_events
  results-received c [] h single v = (h, refl, sym (append-nil (received c h.effects)))
  results-received c (msg ∷ msgs) h single v =
      let (h1, handled, v1, effects1) = result-handled msg h v in
      let (h2, ran, got) = results-received c msgs h1 single v1 in
      (
        h2,
        rw (handled, run_events) ran,
        got
            ∙ rw (effects1, received-sent_to c msg cs h.effects, single)
                (append_assoc (received c h.effects) (msg ∷ []) msgs),
      )

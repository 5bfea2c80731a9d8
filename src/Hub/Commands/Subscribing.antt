-- ===== src/Hub/Commands/Subscribing.antt =====
-- internal/hub/hub.go: a read that is started, and a client that subscribes to a section.
use sofar_hyd_diag.Prelude.{
  ℕ, ◌≡◌, refl, sym, ap, ◌∙◌, subst, inl, inr, Bool, true, false, not, ◌&&◌, String, none, some, [],
  ◌∷◌, ◌==◌, ==_iff, if◌then◌else◌, Bool-cases, Option-cases, arith,
}
use text.Mathlib.Text.{◌==◌ as same_text}
use text.Mathlib.TextEquality.{eq_iff}
use sofar_hyd_diag.Hub.Message.{section_schema, section_error}
use sofar_hyd_diag.Hub.Section.{Section, is_member, cancel_read, add_subscriber}
use sofar_hyd_diag.Hub.Reads.{build_section_schema}
use sofar_hyd_diag.Hub.State.{
  Hub, sent, read_started, Room, note, cancel_section, cancelled, unsubscribe_client,
  send_to_client, is_subscribed, has_subscriber,
}
use sofar_hyd_diag.Hub.State.Soundness.{
  IsSound, IsSafe, if-IsSafe, note-IsSound, put_section-empty, put_section-IsSound,
  cancel_section-IsSound,
}
use sofar_hyd_diag.Hub.State.Leaving.{
  unsubscribe_client-IsSound, unsubscribe_client-apart, unsubscribe_client-closed, put_section-here,
  apart_from_sections, without_selection-InBounds, remove_client-IsSafe, send_to_client-IsSafe,
}
use sofar_hyd_diag.Hub.Commands.{
  start_context, is_grouped, trigger_section_read, read_for, show_section, with_subscriber,
  leave_previous, subscribe_client,
}

pub start_context-IsSound :
    (name : String) (sec : Section) (h : Hub)
    → h.sections name ≡ some sec
    → IsSound h
    → IsSound (start_context name sec h)
unfolding cancel_read
start_context-IsSound name sec h found s =
    let t =
      put_section-IsSound name sec
        (record (cancelled sec) { read_cancel = some h.next_context; reading = true }) h found
        (λ c is_in. is_in) s in
    record {
      registered = t.registered;
      subscribed = t.subscribed;
      no_empty_name = t.no_empty_name;
      in_bounds = t.in_bounds;
    }

pub trigger_section_read-IsSound :
    (name : String) (h : Hub) → IsSound h → IsSound (trigger_section_read name h)
unfolding trigger_section_read
trigger_section_read-IsSound name h s = elim (Option-cases (h.sections name)) [
  | inl missing ↦ rw (missing, trigger_section_read) s
  | inr (sec, found) ↦
      rw (found, trigger_section_read)
        (note-IsSound (read_started name h.next_context) (start_context name sec h)
          (start_context-IsSound name sec h found s))
]

read_for-IsSafe :
    (room : Room) (c : ℕ) (name : String) (h : Hub)
    → IsSound h
    → h.closed c ≡ false
    → IsSafe (read_for room c name h)
read_for-IsSafe room c name h s is_open =
    if-IsSafe h.connected _ _ (λ _. trigger_section_read-IsSound name h s)
      (λ _.
        send_to_client-IsSafe room c (section_error name "not connected to inverter") h s is_open)

show_section-IsSafe :
    (room : Room) (c : ℕ) (name : String) (sec : Section) (h : Hub)
    → IsSound h
    → h.closed c ≡ false
    → IsSafe (show_section room c name sec h)
unfolding show_section
show_section-IsSafe room c name sec h s is_open =
    let msg = section_schema (build_section_schema name sec.groups) in
    if-IsSafe (elim sec.groups [ [] ↦ false | g ∷ gs ↦ true ]) _ _
      (λ _. rw is_open (
        if-IsSafe (room h.effects c) _ _
          (λ _.
            read_for-IsSafe room c name (note (sent c msg) h) (note-IsSound (sent c msg) h s)
              is_open)
          (λ _. remove_client-IsSafe c h s)))
      (λ _. read_for-IsSafe room c name h s is_open)

-- Whether a client is in a section where none but that one can be.
abbrev InOnly : ℕ → String → Hub → Type 0
InOnly c name h = (n : String) → is_subscribed n h c ≡ true → n ≡ name

cancel_section-same :
    (name : String) (h : Hub)
    → ((cancel_section name h).client_section ≡ h.client_section)
      × ((cancel_section name h).closed ≡ h.closed)
cancel_section-same name h = elim (Option-cases (h.sections name)) [
  | inl missing ↦ rw (missing, cancel_section) (refl, refl)
  | inr (sec, found) ↦ rw (found, cancel_section) (refl, refl)
]

leave_previous-stays :
    (c : ℕ) (name : String) (h : Hub)
    → IsSound h
    → not (same_text (h.client_section c) "") && not (same_text (h.client_section c) name) ≡ false
    → InOnly c name h
leave_previous-stays c name h s stays n is_in =
    elim (Bool-cases (same_text (h.client_section c) "")) [
      | inl nowhere ↦ absurd (apart_from_sections c h s nowhere n is_in)
      | inr somewhere ↦
          sym (s.subscribed n c is_in).0 ∙ (eq_iff (h.client_section c) name).0 (ground arith)
    ]

leave_previous-InOnly :
    (c : ℕ) (name : String) (h : Hub)
    → IsSound h
    → IsSound (leave_previous c name h)
      × InOnly c name (leave_previous c name h)
      × ((leave_previous c name h).closed ≡ h.closed)
unfolding leave_previous
leave_previous-InOnly c name h s =
    let previous = h.client_section c in
    elim (Bool-cases (not (same_text previous "") && not (same_text previous name))) [
      | inr stays ↦ rw (stays, leave_previous) (s, leave_previous-stays c name h s stays, refl)
      | inl leaves ↦
          let h1 = cancel_section previous h in
          let s1 = cancel_section-IsSound previous h s in
          let (same, same') = cancel_section-same previous h in
          rw (leaves, leave_previous)
            (
              unsubscribe_client-IsSound c previous h1 s1,
              λ n is_in. absurd (
                  unsubscribe_client-apart c h1 s1 n (
                    subst (λ p. is_subscribed n (unsubscribe_client c p h1) c ≡ true)
                      (sym (ap (λ f. f c) same)) is_in)),
              unsubscribe_client-closed c previous h1 ∙ same',
            )
    ]

is_member-add_subscriber :
    (sec : Section) (c d : ℕ)
    → is_member d (add_subscriber sec c).subscribers ≡ true
    → (d == c ≡ false)
    → is_member d sec.subscribers ≡ true
unfolding add_subscriber
is_member-add_subscriber sec c d is_in other = elim (Bool-cases (is_member c sec.subscribers)) [
  | inl there ↦ sym (ap (λ b. is_member d (added b).subscribers) there) ∙ is_in
  | inr new ↦
      let more : is_member d (c ∷ sec.subscribers) ≡ true =
        sym (ap (λ b. is_member d (added b).subscribers) new) ∙ is_in in
      ground arith
]
  where
    added : Bool → Section
    added b = if b then sec else record sec { subscribers = c ∷ sec.subscribers }

-- The subscribers of the hub with one more are those of the hub, but for that one.
with_subscriber-others :
    (c : ℕ) (name : String) (sec : Section) (h : Hub)
    → h.sections name ≡ some sec
    → (n : String) (d : ℕ) → d == c ≡ false
    → is_subscribed n (with_subscriber c name sec h) d ≡ true
    → is_subscribed n h d ≡ true
with_subscriber-others c name sec h found n d other is_in = elim (Bool-cases (same_text n name)) [
  | inl same ↦
      let n_name = (eq_iff n name).0 same in
      ap (λ o. has_subscriber o d) (ap h.sections n_name ∙ found)
      ∙ is_member-add_subscriber sec c d
          (put_section-here name (add_subscriber sec c) h n d n_name is_in) other
  | inr apart ↦
      sym
        (ap (λ b. has_subscriber (if b then some (add_subscriber sec c) else h.sections n) d) apart)
      ∙ is_in
]

-- The one that subscribes is in no other section.
with_subscriber-only :
    (c : ℕ) (name : String) (sec : Section) (h : Hub)
    → InOnly c name h
    → InOnly c name (with_subscriber c name sec h)
with_subscriber-only c name sec h only n is_in = elim (Bool-cases (same_text n name)) [
  | inl same ↦ (eq_iff n name).0 same
  | inr apart ↦ only n (
      sym
        (ap (λ b. has_subscriber (if b then some (add_subscriber sec c) else h.sections n) c) apart)
      ∙ is_in)
]

with_subscriber-IsSound :
    (c : ℕ) (name : String) (sec : Section) (h : Hub)
    → h.sections name ≡ some sec
    → IsSound h
    → h.closed c ≡ false
    → InOnly c name h
    → IsSound (with_subscriber c name sec h)
with_subscriber-IsSound c name sec h found s is_open only = record {
  registered = s.registered;
  subscribed = λ n d is_in. elim (Bool-cases (d == c)) [
    | inl same ↦
        let d_c = (==_iff d c).0 same in
        (
          rw same (
              sym (
                with_subscriber-only c name sec h only n (
                  subst (λ e. is_subscribed n (with_subscriber c name sec h) e ≡ true) d_c is_in))),
          ap h.closed d_c ∙ is_open,
        )
    | inr other ↦
        let (at_n, was_open) =
          s.subscribed n d (with_subscriber-others c name sec h found n d other is_in) in
        (rw other at_n, was_open)
  ];
  no_empty_name = put_section-empty name sec (add_subscriber sec c) h found s.no_empty_name;
  in_bounds =
      let (d, d', p, p', t) = s.in_bounds in
      (d, d', p, p', without_selection-InBounds (same_text name "bms") h s.in_bounds);
}

pub subscribe_client-IsSafe :
    (room : Room) (c : ℕ) (name : String) (h : Hub)
    → IsSound h
    → h.closed c ≡ false
    → IsSafe (subscribe_client room c name h)
unfolding subscribe_client
subscribe_client-IsSafe room c name h s is_open =
    let h1 = leave_previous c name h in
    let (s1, only, same) = leave_previous-InOnly c name h s in
    let open1 : h1.closed c ≡ false = ap (λ f. f c) same ∙ is_open in
    elim (Option-cases (h1.sections name)) [
      | inl missing ↦
          rw (missing, subscribe_client)
            (send_to_client-IsSafe room c (section_error name "unknown section") h1 s1 open1)
      | inr (sec, found) ↦
          rw (found, subscribe_client)
            (show_section-IsSafe room c name sec (with_subscriber c name sec h1)
              (with_subscriber-IsSound c name sec h1 found s1 open1 only) open1)
    ]

-- A client that the hub has closed, which subscribes by a command that was still queued, brings the
-- hub down: the send on its channel panics, whether the section is one with groups or there is none
-- of that name, since nothing looks at `closed` first.
pub subscribe_client-closed :
    (room : Room) (c : ℕ) (name : String) (h : Hub)
    → h.closed c ≡ true
    → (h.client_section c ≡ "")
    → ((sec : Section) → h.sections name ≡ some sec → is_grouped sec ≡ true)
    → subscribe_client room c name h ≡ none
unfolding subscribe_client leave_previous show_section send_to_client
subscribe_client-closed room c name h is_closed nowhere grouped =
    let at_none : same_text (h.client_section c) "" ≡ true =
      (eq_iff (h.client_section c) "").1 nowhere in
    let stays : leave_previous c name h ≡ h = rw (at_none, leave_previous) refl in
    elim (Option-cases (h.sections name)) [
      | inl missing ↦ rw (subscribe_client, stays, missing, stays, send_to_client, is_closed) refl
      | inr (sec, found) ↦
          rw (subscribe_client, stays, found, stays, show_section, grouped sec found, is_closed)
            refl
    ]

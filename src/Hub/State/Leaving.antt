-- ===== src/Hub/State/Leaving.antt =====
-- internal/hub/hub.go: a client that leaves a section, and a message to clients that are there.
use sofar_hyd_diag.Prelude.{
  ℕ, ◌≡◌, refl, sym, ap, ◌∙◌, subst, inl, inr, Bool, true, false, not, ◌&&◌, String, none, some,
  List, [], ◌∷◌, ◌==◌, ==_iff, if◌then◌else◌, Bool-cases, Option-cases, arith,
}
use text.Mathlib.Text.{◌==◌ as same_text}
use text.Mathlib.TextEquality.{eq_iff}
use sofar_hyd_diag.Hub.Message.{HubMessage}
use sofar_hyd_diag.Hub.Section.{
  Section, is_member, cancel_read, remove_subscriber, subscriber_count,
}
use sofar_hyd_diag.Hub.State.{
  Hub, sent, Room, put_section, cancelled, left_section, without_subscriber, unsubscribe_client,
  close_client, remove_client, send_to_client, broadcast, is_client, is_subscribed, has_subscriber,
  broadcast_all, broadcast_result_to_section,
}
use sofar_hyd_diag.Hub.State.Soundness.{
  InTopology, InBounds, IsSound, IsSafe, bind-IsSafe, if-IsSafe, is_member-without, note-IsSound,
  put_section-subscribed, put_section-empty,
}

if_subscribers :
    (b : Bool) (x y : Section)
    → x.subscribers ≡ y.subscribers
    → (if b then x else y).subscribers ≡ y.subscribers
if_subscribers true x y same = same
if_subscribers false x y same = refl

left_section-Subset :
    (sec : Section) (c d : ℕ)
    → is_member d (left_section sec c).subscribers ≡ true
    → (is_member d sec.subscribers ≡ true) × (d == c ≡ false)
unfolding left_section remove_subscriber cancel_read
left_section-Subset sec c d is_in =
    let sec' = remove_subscriber sec c in
    is_member-without sec.subscribers c d (
      sym
        (ap (is_member d) (if_subscribers (subscriber_count sec' == 0) (cancelled sec') sec' refl))
      ∙ is_in)

pub without_selection-InBounds :
    (b : Bool) (h : Hub) → InBounds h → InTopology (if b then none else h.selected_pack)
without_selection-InBounds true h bounds = tt
without_selection-InBounds false h (d, d', p, p', s) = s

-- A subscriber after a section was replaced, where that is the section, is one of the new one.
pub put_section-here :
    (name : String) (sec' : Section) (h : Hub) (n : String) (c : ℕ)
    → n ≡ name
    → is_subscribed n (put_section name sec' h) c ≡ true
    → is_member c sec'.subscribers ≡ true
put_section-here name sec' h n c same is_in =
    sym
      (ap (λ b. has_subscriber (if b then some sec' else h.sections n) c) ((eq_iff n name).1 same))
    ∙ is_in

module _ (c : ℕ) (name : String) (sec : Section) (h : Hub) (found : h.sections name ≡ some sec)
    (s : IsSound h) where
  without_subscriber-subscribed :
      (n : String) (d : ℕ)
      → is_subscribed n (without_subscriber c name sec h) d ≡ true
      → is_subscribed n h d ≡ true
  without_subscriber-subscribed =
      put_section-subscribed name sec (left_section sec c) h found
        (λ d is_in. (left_section-Subset sec c d is_in).0)

  without_subscriber-other :
      (n : String) (d : ℕ)
      → is_subscribed n (without_subscriber c name sec h) d ≡ true
      → n ≡ name
      → d == c ≡ false
  without_subscriber-other n d is_in same =
      (left_section-Subset sec c d (put_section-here name (left_section sec c) h n d same is_in)).1

  -- The section of a client that is still subscribed has not changed.
  without_subscriber-client_section :
      (n : String) (d : ℕ)
      → is_subscribed n (without_subscriber c name sec h) d ≡ true
      → (without_subscriber c name sec h).client_section d ≡ n
  without_subscriber-client_section n d is_in =
      let (at_n, _) = s.subscribed n d (without_subscriber-subscribed n d is_in) in
      elim (Bool-cases (d == c && same_text (h.client_section c) name)) [
        | inr kept ↦ rw kept at_n
        | inl reset ↦
            let same_client : d ≡ c = ground arith in
            let there : h.client_section c ≡ name =
              (eq_iff (h.client_section c) name).0 (ground arith) in
            let n_name : n ≡ name = sym at_n ∙ ap h.client_section same_client ∙ there in
            let other : d == c ≡ false = without_subscriber-other n d is_in n_name in
            absurd (ground arith)
      ]

  without_subscriber-IsSound : IsSound (without_subscriber c name sec h)
  without_subscriber-IsSound = record {
    registered = s.registered;
    subscribed = λ n d is_in. (
      without_subscriber-client_section n d is_in,
      (s.subscribed n d (without_subscriber-subscribed n d is_in)).1,
    );
    no_empty_name = put_section-empty name sec (left_section sec c) h found s.no_empty_name;
    in_bounds =
        let (d, d', p, p', t) = s.in_bounds in
        (d, d', p, p', without_selection-InBounds (same_text name "bms") h s.in_bounds);
  }

pub unsubscribe_client-IsSound :
    (c : ℕ) (name : String) (h : Hub) → IsSound h → IsSound (unsubscribe_client c name h)
unfolding unsubscribe_client
unsubscribe_client-IsSound c name h s = elim (Option-cases (h.sections name)) [
  | inl missing ↦ rw (missing, unsubscribe_client) s
  | inr (sec, found) ↦
      rw (found, unsubscribe_client) (without_subscriber-IsSound c name sec h found s)
]

-- A client that left its section is in none.
pub unsubscribe_client-apart :
    (c : ℕ) (h : Hub)
    → IsSound h
    → (n : String) → is_subscribed n (unsubscribe_client c (h.client_section c) h) c ≡ true
    → ⊥
unfolding unsubscribe_client
unsubscribe_client-apart c h s n = elim (Option-cases (h.sections (h.client_section c))) [
  | inl missing ↦
      rw (missing, unsubscribe_client)
        (λ is_in.
          let (at_n, _) = s.subscribed n c is_in in
          let gone : is_subscribed n h c ≡ false =
            ap (λ o. has_subscriber o c) (sym (ap h.sections at_n) ∙ missing) in
          cc)
  | inr (sec, found) ↦
      rw (found, unsubscribe_client)
        (λ is_in.
          let name = h.client_section c in
          let (at_n, _) =
            s.subscribed n c (without_subscriber-subscribed c name sec h found s n c is_in) in
          let other = without_subscriber-other c name sec h found s n c is_in (sym at_n) in
          absurd (ground (arith, other)))
]

-- A client that is in no section is closed.
close_client-IsSafe :
    (c : ℕ) (h : Hub)
    → IsSound h
    → h.closed c ≡ false
    → ((n : String) → is_subscribed n h c ≡ true → ⊥)
    → IsSafe (close_client c h)
close_client-IsSafe c h s is_open apart = rw is_open (record {
  registered = λ d is_in.
      let (there, other) = is_member-without h.clients c d is_in in
      let was_open = s.registered d there in ground arith;
  subscribed = λ n d is_in.
      let (at_n, was_open) = s.subscribed n d is_in in
      (
        at_n,
        elim (Bool-cases (d == c)) [
          | inr other ↦ ground arith
          | inl same ↦
              absurd (apart n (subst (λ e. is_subscribed n h e ≡ true) ((==_iff d c).0 same) is_in))
        ],
      );
  no_empty_name = s.no_empty_name;
  in_bounds = s.in_bounds;
})

pub apart_from_sections :
    (c : ℕ) (h : Hub)
    → IsSound h
    → same_text (h.client_section c) "" ≡ true
    → (n : String) → is_subscribed n h c ≡ true
    → ⊥
apart_from_sections c h s nowhere n is_in =
    let (at_n, _) = s.subscribed n c is_in in
    let named : n ≡ "" = sym at_n ∙ (eq_iff (h.client_section c) "").0 nowhere in
    let gone : is_subscribed n h c ≡ false =
      ap (λ o. has_subscriber o c) (ap h.sections named ∙ s.no_empty_name) in
    cc

pub unsubscribe_client-closed :
    (c : ℕ) (name : String) (h : Hub) → (unsubscribe_client c name h).closed ≡ h.closed
unfolding unsubscribe_client
unsubscribe_client-closed c name h = elim (Option-cases (h.sections name)) [
  | inl missing ↦ rw (missing, unsubscribe_client) refl
  | inr (sec, found) ↦ rw (found, unsubscribe_client) refl
]

pub remove_client-IsSafe : (c : ℕ) (h : Hub) → IsSound h → IsSafe (remove_client c h)
unfolding remove_client
remove_client-IsSafe c h s =
    if-IsSafe (not (is_client h c)) _ _ (λ _. s)
      (λ there.
        let is_open = s.registered c (ground arith) in
        elim (Bool-cases (same_text (h.client_section c) "")) [
          | inl nowhere ↦
              rw nowhere (close_client-IsSafe c h s is_open (apart_from_sections c h s nowhere))
          | inr somewhere ↦ rw somewhere (
              close_client-IsSafe c (unsubscribe_client c (h.client_section c) h)
                (unsubscribe_client-IsSound c (h.client_section c) h s)
                (ap (λ f. f c) (unsubscribe_client-closed c (h.client_section c) h) ∙ is_open)
                (unsubscribe_client-apart c h s))
        ])

pub send_to_client-IsSafe :
    (room : Room) (c : ℕ) (msg : HubMessage) (h : Hub)
    → IsSound h
    → h.closed c ≡ false
    → IsSafe (send_to_client room c msg h)
unfolding send_to_client
send_to_client-IsSafe room c msg h s is_open = rw is_open (
    if-IsSafe (room h.effects c) _ _ (λ _. note-IsSound (sent c msg) h s)
      (λ _. remove_client-IsSafe c h s))

broadcast-IsSafe :
    (room : Room) (msg : HubMessage) (present : Hub → ℕ → Bool)
    → ((h : Hub) (c : ℕ) → IsSound h → present h c ≡ true → h.closed c ≡ false)
    → (cs : List ℕ) (h : Hub) → IsSound h
    → IsSafe (broadcast room msg present cs h)
unfolding broadcast
broadcast-IsSafe room msg present is_open [] h s = s
broadcast-IsSafe room msg present is_open (c ∷ cs) h s =
    bind-IsSafe (if present h c then send_to_client room c msg h else some h)
      (broadcast room msg present cs)
      (if-IsSafe (present h c) _ _
        (λ there. send_to_client-IsSafe room c msg h s (is_open h c s there)) (λ _. s))
      (λ h1 s1. broadcast-IsSafe room msg present is_open cs h1 s1)

pub broadcast_all-IsSafe :
    (room : Room) (msg : HubMessage) (h : Hub) → IsSound h → IsSafe (broadcast_all room msg h)
unfolding broadcast_all
broadcast_all-IsSafe room msg h s =
    broadcast-IsSafe room msg is_client (λ h c s. s.registered c) h.clients h s

pub broadcast_result_to_section-IsSafe :
    (room : Room) (name : String) (msg : HubMessage) (h : Hub)
    → IsSound h
    → IsSafe (broadcast_result_to_section room name msg h)
unfolding broadcast_result_to_section
broadcast_result_to_section-IsSafe room name msg h s = elim (Option-cases (h.sections name)) [
  | inl missing ↦ rw (missing, broadcast_result_to_section) s
  | inr (sec, found) ↦
      rw (found, broadcast_result_to_section)
        (broadcast-IsSafe room msg (is_subscribed name)
          (λ h c s is_in. (s.subscribed name c is_in).1) sec.subscribers h s)
]

-- ===== src/Hub/State/Soundness.antt =====
-- internal/hub/hub.go: what is true of the hub between two events.
use sofar_hyd_diag.Prelude.{
  ℕ, ◌≤◌, ◌≡◌, refl, sym, ap, ◌∙◌, inl, inr, Bool, true, false, not, String, Option, none, some,
  List, [], ◌∷◌, ◌==◌, keep, if◌then◌else◌, Bool-cases, Option-cases, arith,
}
use text.Mathlib.Text.{◌==◌ as same_text}
use text.Mathlib.TextEquality.{eq_iff}
use sofar_hyd_diag.Hub.Section.{Section, is_member, cancel_read}
use sofar_hyd_diag.Hub.Reads.{topo_inputs, topo_towers, topo_packs_per_tower}
use sofar_hyd_diag.Hub.State.{
  PackSelection, Hub, Effect, note, ◌>>=◌, put_section, each_section, cancel_section, cancelled,
  is_client, is_subscribed, has_subscriber,
}

abbrev pub InTopology : Option PackSelection → Type 0
InTopology none = Unit
InTopology (some s) =
    (1 ≤ s.input)
    × (s.input ≤ topo_inputs)
    × (1 ≤ s.tower)
    × (s.tower ≤ topo_towers)
    × (1 ≤ s.pack)
    × (s.pack ≤ topo_packs_per_tower)

-- The settings within the bounds that the handlers cut them to.
abbrev pub InBounds : Hub → Type 0
InBounds h =
    (50 ≤ h.read_delay_ms)
    × (h.read_delay_ms ≤ 5000)
    × (500 ≤ h.pack_settle_ms)
    × (h.pack_settle_ms ≤ 10000)
    × InTopology h.selected_pack

-- A registered client is not closed; a subscriber is not closed and subscribed to no other section;
-- no section has the empty name, which stands for no section in a client.
pub record IsSound (h : Hub) : Type 0 where
  pub registered : (c : ℕ) → is_client h c ≡ true → h.closed c ≡ false
  pub subscribed :
      (name : String) (c : ℕ)
      → is_subscribed name h c ≡ true
      → (h.client_section c ≡ name) × (h.closed c ≡ false)
  pub no_empty_name : h.sections "" ≡ none
  pub in_bounds : InBounds h

-- Of a step of the hub: it does not panic and leaves the hub sound.
abbrev pub IsSafe : Option Hub → Type 0
IsSafe none = ⊥
IsSafe (some h) = IsSound h

pub bind-IsSafe :
    (o : Option Hub) (k : Hub → Option Hub)
    → IsSafe o
    → ((h : Hub) → IsSound h → IsSafe (k h))
    → IsSafe (o >>= k)
bind-IsSafe none k safe next = absurd safe
bind-IsSafe (some h) k safe next = next h safe

pub if-IsSafe :
    (b : Bool) (x y : Option Hub)
    → (b ≡ true → IsSafe x)
    → (b ≡ false → IsSafe y)
    → IsSafe (if b then x else y)
if-IsSafe true x y sx sy = sx refl
if-IsSafe false x y sx sy = sy refl

pub if-IsSound :
    (b : Bool) (x y : Hub)
    → (b ≡ true → IsSound x)
    → (b ≡ false → IsSound y)
    → IsSound (if b then x else y)
if-IsSound true x y sx sy = sx refl
if-IsSound false x y sx sy = sy refl

abbrev pub Subset : List ℕ → List ℕ → Type 0
Subset cs ds = (c : ℕ) → is_member c cs ≡ true → is_member c ds ≡ true

pub is_member-without :
    (cs : List ℕ) (c d : ℕ)
    → is_member d (keep (λ e. not (e == c)) cs) ≡ true
    → (is_member d cs ≡ true) × (d == c ≡ false)
is_member-without [] c d h = ground arith
is_member-without (e ∷ cs) c d h = ground (arith, is_member-without cs c d)

pub note-IsSound : (e : Effect) (h : Hub) → IsSound h → IsSound (note e h)
note-IsSound e h s = record {
  registered = s.registered;
  subscribed = s.subscribed;
  no_empty_name = s.no_empty_name;
  in_bounds = s.in_bounds;
}

pub put_section-subscribed :
    (name : String) (sec sec' : Section) (h : Hub)
    → h.sections name ≡ some sec
    → Subset sec'.subscribers sec.subscribers
    → (n : String) (c : ℕ) → is_subscribed n (put_section name sec' h) c ≡ true
    → is_subscribed n h c ≡ true
put_section-subscribed name sec sec' h found fewer n c is_in =
    elim (Bool-cases (same_text n name)) [
      | inl same ↦
          ap (λ o. has_subscriber o c) (ap h.sections ((eq_iff n name).0 same) ∙ found)
          ∙ fewer c (sym (by_test same) ∙ is_in)
      | inr other ↦ sym (by_test other) ∙ is_in
    ]
  where
    by_test :
        {b : Bool}
        → same_text n name ≡ b
        → is_subscribed n (put_section name sec' h) c
          ≡ has_subscriber (if b then some sec' else h.sections n) c
    by_test e = ap (λ b. has_subscriber (if b then some sec' else h.sections n) c) e

pub put_section-empty :
    (name : String) (sec sec' : Section) (h : Hub)
    → h.sections name ≡ some sec
    → h.sections "" ≡ none
    → (put_section name sec' h).sections "" ≡ none
put_section-empty name sec sec' h found none_there = elim (Bool-cases (same_text "" name)) [
  | inl same ↦
      let here : h.sections "" ≡ h.sections name = ap h.sections ((eq_iff "" name).0 same) in cc
  | inr other ↦ rw other none_there
]

pub put_section-IsSound :
    (name : String) (sec sec' : Section) (h : Hub)
    → h.sections name ≡ some sec
    → Subset sec'.subscribers sec.subscribers
    → IsSound h
    → IsSound (put_section name sec' h)
put_section-IsSound name sec sec' h found fewer s = record {
  registered = s.registered;
  subscribed =
      λ n c is_in. s.subscribed n c (put_section-subscribed name sec sec' h found fewer n c is_in);
  no_empty_name = put_section-empty name sec sec' h found s.no_empty_name;
  in_bounds = s.in_bounds;
}

pub each_section-IsSound :
    (f : Section → Section) (h : Hub)
    → ((sec : Section) → (f sec).subscribers ≡ sec.subscribers)
    → IsSound h
    → IsSound (each_section f h)
each_section-IsSound f h same s = record {
  registered = s.registered;
  subscribed = λ n c is_in. s.subscribed n c (sym (unchanged (h.sections n) c) ∙ is_in);
  no_empty_name = rw s.no_empty_name refl;
  in_bounds = s.in_bounds;
}
  where
    unchanged :
        (o : Option Section) (c : ℕ)
        → has_subscriber (elim o [ none ↦ none | some sec ↦ some (f sec) ]) c ≡ has_subscriber o c
    unchanged none c = refl
    unchanged (some sec) c = ap (is_member c) (same sec)

pub cancel_section-IsSound : (name : String) (h : Hub) → IsSound h → IsSound (cancel_section name h)
unfolding cancel_read
cancel_section-IsSound name h s = elim (Option-cases (h.sections name)) [
  | inl missing ↦ rw (missing, cancel_section) s
  | inr (sec, found) ↦
      rw (found, cancel_section)
        (put_section-IsSound name sec (cancelled sec) h found (λ c is_in. is_in) s)
]

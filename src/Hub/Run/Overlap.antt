-- ===== src/Hub/Run/Overlap.antt =====
-- internal/hub/hub.go and hub_streaming.go: the flag that keeps reads of a section from overlapping.
use sofar_hyd_diag.Prelude.{
  ℕ, ◌+◌, ◌≡◌, refl, Bool, true, false, not, ◌&&◌, ◌||◌, if◌then◌else◌, ◌==◌, String, some, [], ◌∷◌,
  ap, ◌∙◌, arith,
}
use text.Mathlib.Text.{◌==◌ as same_text}
use text.Mathlib.TextPositions.{eq_refl}
use sofar_hyd_diag.Register.Batch.Sorting.{AddrSort}
use sofar_hyd_diag.Hub.Section.{with_cancelled, Section, cancel_read, subscriber_count}
use sofar_hyd_diag.Hub.State.{Hub, read_started, Room, note, put_section, cancelled}
use sofar_hyd_diag.Hub.Commands.{
  refresh, read_cycle, handle_read_cycle, trigger_section_read, start_context, forget_read,
}
use sofar_hyd_diag.Hub.Run.{command, read_done, reading_over, run_events}

-- A section that is read, for subscribers.
pub record IsReading (name : String) (sec : Section) (h : Hub) : Type 0 where
  pub found : h.sections name ≡ some sec
  pub in_progress : sec.reading ≡ true
  pub subscribed : subscriber_count sec == 0 ≡ false
  pub not_cached : (sec.read_once && sec.has_read_once) ≡ false
  pub is_connected : h.connected ≡ true
  pub not_bms : same_text name "bms" ≡ false

if_true : (b : Bool) (x y : Hub) → b ≡ true → (if b then x else y) ≡ x
if_true b x y h = rw h refl

if_false : (b : Bool) (x y : Hub) → b ≡ false → (if b then x else y) ≡ y
if_false b x y h = rw h refl

-- What makes a read cycle be skipped.
abbrev is_skipping : Section → Hub → Bool
is_skipping sec h =
    not h.connected
    || (subscriber_count sec == 0 || (sec.reading || (sec.read_once && sec.has_read_once)))

handle_read_cycle-skips :
    (name : String) (sec : Section) (h : Hub)
    → h.sections name ≡ some sec
    → is_skipping sec h ≡ true
    → handle_read_cycle name h ≡ h
unfolding handle_read_cycle
handle_read_cycle-skips name sec h found skips =
    rw (found, handle_read_cycle) (if_true (is_skipping sec h) h _ skips)

handle_read_cycle-starts :
    (name : String) (sec : Section) (h : Hub)
    → h.sections name ≡ some sec
    → is_skipping sec h ≡ false
    → same_text name "bms" ≡ false
    → handle_read_cycle name h ≡ trigger_section_read name h
unfolding handle_read_cycle
handle_read_cycle-starts name sec h found goes_on not_bms =
    rw (found, handle_read_cycle)
      (if_false (is_skipping sec h) h _ goes_on
        ∙ if_false (same_text name "bms") _ (trigger_section_read name h) not_bms)

put_section_self :
    (name : String) (sec : Section) (h : Hub) → (put_section name sec h).sections name ≡ some sec
put_section_self name sec h = rw (eq_refl name) refl

-- The section once a goroutine has reset its flag.
abbrev quiet : Section → Section
quiet sec = record sec { reading = false }

reading_over-eq :
    (name : String) (sec : Section) (h : Hub)
    → h.sections name ≡ some sec
    → (context : ℕ) → reading_over name context h ≡ put_section name (quiet sec) h
reading_over-eq name sec h found context = rw (found, reading_over) refl

module _ (name : String) (sec : Section) (h : Hub) (v : IsReading name sec h) where
  skips-true : is_skipping sec h ≡ true
  skips-true = let reading = v.in_progress in ground arith

  goes_on : is_skipping (quiet sec) h ≡ false
  unfolding subscriber_count
  goes_on =
      let is_connected = v.is_connected in
      let subscribed : subscriber_count (quiet sec) == 0 ≡ false = v.subscribed in
      let not_cached = v.not_cached in ground arith

  again :
      (context : ℕ)
      → handle_read_cycle name (reading_over name context h)
        ≡ trigger_section_read name (put_section name (quiet sec) h)
  again context =
      ap (handle_read_cycle name) (reading_over-eq name sec h v.found context)
      ∙ handle_read_cycle-starts name (quiet sec) (put_section name (quiet sec) h)
          (put_section_self name (quiet sec) h) goes_on v.not_bms

-- The section that is read anew, and the hub that has started the read.
abbrev restarted : Section → ℕ → Section
restarted sec context = record (cancelled sec) { read_cancel = some context; reading = true }

abbrev refreshed : String → Section → Hub → Hub
refreshed name sec h = note (read_started name h.next_context) (start_context name sec h)

trigger_section_read-eq :
    (name : String) (sec : Section) (h : Hub)
    → h.sections name ≡ some sec
    → trigger_section_read name h ≡ refreshed name sec h
unfolding trigger_section_read
trigger_section_read-eq name sec h found = rw (found, trigger_section_read) refl

module _ (name : String) (sec : Section) (h : Hub) (v : IsReading name sec h) where
  refreshed-IsReading : IsReading name (restarted sec h.next_context) (refreshed name sec h)
  unfolding cancel_read subscriber_count
  refreshed-IsReading = record {
    found = put_section_self name (restarted sec h.next_context) h;
    in_progress = refl;
    subscribed = v.subscribed;
    not_cached = v.not_cached;
    is_connected = v.is_connected;
    not_bms = v.not_bms;
  }

  refresh-refreshed :
      sec.read_once ≡ false → trigger_section_read name (forget_read name h) ≡ refreshed name sec h
  refresh-refreshed always =
      ap (trigger_section_read name) (rw (v.found, forget_read) (rw always refl))
      ∙ trigger_section_read-eq name sec h v.found

-- A refresh replaces the read of a section that is read (connected, not the bms, not read once, with
-- subscribers) by another. A read_cycle then is skipped, as it is meant to be. But the goroutine of
-- the read that was replaced resets the flag of the section when it ends: a read_cycle after that
-- starts a third read, and cancels the second, which is the section's and has not ended.
pub read_done-read_cycle :
    (by : AddrSort) (room : Room) (c old : ℕ) (name : String) (sec : Section) (h : Hub)
    → IsReading name sec h
    → sec.read_once ≡ false
    → sec.read_cancel ≡ some old
    → let second = h.next_context in
      let third = h.next_context + 1 in
      ((h1 : Hub) × (run_events by room
            (command c (refresh name) ∷ command c (read_cycle name) ∷ [])
            h
          ≡ some h1)
        × (h1.effects ≡ read_started name second ∷ h.effects))
      × ((h2 : Hub) × (run_events by room
              (command c (refresh name) ∷ read_done name old ∷ command c (read_cycle name) ∷ [])
              h
            ≡ some h2)
          × (h2.effects ≡ read_started name third ∷ read_started name second ∷ h.effects)
          × (h2.sections name
              ≡ some (record sec {
                reading = true;
                read_cancel = some third;
                cancelled_contexts = second ∷ old ∷ sec.cancelled_contexts;
              })))
unfolding run_events cancel_read
read_done-read_cycle by room c old name sec h v always held =
    let sec1 = restarted sec h.next_context in
    let h1 = refreshed name sec h in
    let v1 = refreshed-IsReading name sec h v in
    let replaced = refresh-refreshed name sec h v always in
    let h1' = put_section name (quiet sec1) h1 in
    let found1 = put_section_self name (quiet sec1) h1 in
    (
      (
        h1,
        ap (λ g. some (handle_read_cycle name g)) replaced
            ∙ ap some (handle_read_cycle-skips name sec1 h1 v1.found (skips-true name sec1 h1 v1)),
        refl,
      ),
      (
        refreshed name (quiet sec1) h1',
        ap (λ g. some (handle_read_cycle name (reading_over name old g))) replaced
            ∙ ap some
                (again name sec1 h1 v1 old ∙ trigger_section_read-eq name (quiet sec1) h1' found1),
        refl,
        put_section_self name (restarted (quiet sec1) (h.next_context + 1)) h1'
            ∙ ap
                (λ o. some (record sec {
                  reading = true;
                  read_cancel = some (h.next_context + 1);
                  cancelled_contexts = h.next_context ∷ with_cancelled o sec.cancelled_contexts;
                }))
                held,
      ),
    )

-- ===== src/Hub/Run/Shutdown.antt =====
-- internal/hub/hub.go: the end of the event loop.
use sofar_hyd_diag.Prelude.{
  ℕ, ◌≡◌, refl, ap, ◌∙◌, subst, inl, inr, ◌⊎◌, true, false, not, ◌||◌, String, Option, none, some,
  List, [], ◌∷◌, ◌==◌, ==_iff, keep, Bool-cases, Option-cases, arith,
}
use sofar_hyd_diag.Register.Format.{ℤ}
use sofar_hyd_diag.Register.Batch.Sorting.{AddrSort}
use sofar_hyd_diag.Hub.Section.{Section, is_member, cancel_read}
use sofar_hyd_diag.Hub.State.{Hub, Room, ◌>>=◌, each_section, cancelled, is_client}
use sofar_hyd_diag.Hub.State.Soundness.{IsSound, IsSafe, is_member-without}
use sofar_hyd_diag.Hub.Run.{HubEvent, run_events, close_clients, shutdown, started, run}
use sofar_hyd_diag.Hub.Run.Safety.{AllHeard, run_events-IsSafe}

-- All who are to be closed are, and who was closed stays it.
abbrev Closes : List ℕ → Hub → Option Hub → Type 0
Closes cs h none = ⊥
Closes cs h (some h1) =
    (d : ℕ)
    → (h.closed d ≡ true) ⊎ ((is_member d cs ≡ true) × (is_client h d ≡ true))
    → h1.closed d ≡ true

abbrev without_client : ℕ → Hub → Hub
without_client c h = record h {
  clients = keep (λ d. not (d == c)) h.clients;
  closed = λ d. d == c || h.closed d;
}

is_member-keep :
    (cs : List ℕ) (c d : ℕ)
    → is_member d cs ≡ true
    → d == c ≡ false
    → is_member d (keep (λ e. not (e == c)) cs) ≡ true
is_member-keep [] c d there other = ground arith
is_member-keep (e ∷ cs) c d there other = ground (arith, is_member-keep cs c d)

-- Whether the client is closed, or one of those to be.
abbrev Ends : List ℕ → Hub → ℕ → Type 0
Ends cs h d = (h.closed d ≡ true) ⊎ ((is_member d cs ≡ true) × (is_client h d ≡ true))

widen :
    (cs cs' : List ℕ) (h h' : Hub) (o : Option Hub)
    → ((d : ℕ) → Ends cs h d → Ends cs' h' d)
    → Closes cs' h' o
    → Closes cs h o
widen cs cs' h h' none more done = done
widen cs cs' h h' (some h1) more done = λ d end. done d (more d end)

without_client-Ends :
    (c : ℕ) (cs : List ℕ) (h : Hub) (d : ℕ) → Ends (c ∷ cs) h d → Ends cs (without_client c h) d
without_client-Ends c cs h d (inl closed) = inl (ground arith)
without_client-Ends c cs h d (inr (there, registered)) = elim (Bool-cases (d == c)) [
  | inl same ↦ inl (ground arith)
  | inr other ↦ inr (ground arith, is_member-keep h.clients c d registered other)
]

skipped-Ends :
    (c : ℕ) (cs : List ℕ) (h : Hub)
    → is_client h c ≡ false
    → (d : ℕ) → Ends (c ∷ cs) h d
    → Ends cs h d
skipped-Ends c cs h gone d (inl closed) = inl closed
skipped-Ends c cs h gone d (inr (there, registered)) = elim (Bool-cases (d == c)) [
  | inl same ↦
      let back : is_client h c ≡ true =
        subst (λ e. is_client h e ≡ true) ((==_iff d c).0 same) registered in
      cc
  | inr other ↦ inr (ground arith, registered)
]

none-Ends : (h : Hub) (d : ℕ) → Ends [] h d → h.closed d ≡ true
none-Ends h d (inl closed) = closed
none-Ends h d (inr (there, _)) = absurd (ground arith)

close_clients-Closes :
    (cs : List ℕ) (h : Hub)
    → ((c : ℕ) → is_client h c ≡ true → h.closed c ≡ false)
    → Closes cs h (close_clients cs h)
unfolding close_clients
close_clients-Closes [] h is_open = λ d end. none-Ends h d end
close_clients-Closes (c ∷ cs) h is_open = elim (Bool-cases (is_client h c)) [
  | inr gone ↦ rw gone (
      widen (c ∷ cs) cs h h (close_clients cs h) (skipped-Ends c cs h gone)
        (close_clients-Closes cs h is_open))
  | inl there ↦
      rw (there, is_open c there)
        (widen (c ∷ cs) cs h (without_client c h) (close_clients cs (without_client c h))
          (without_client-Ends c cs h)
          (close_clients-Closes cs (without_client c h) (λ d is_in.
            let (was_in, other) = is_member-without h.clients c d is_in in
            let was_open = is_open d was_in in ground arith)))
]

-- The clients that go leave the sections as they are.
abbrev HasSections : (String → Option Section) → Option Hub → Type 0
HasSections sections none = Unit
HasSections sections (some h1) = h1.sections ≡ sections

close_clients-HasSections : (cs : List ℕ) (h : Hub) → HasSections h.sections (close_clients cs h)
unfolding close_clients
close_clients-HasSections [] h = refl
close_clients-HasSections (c ∷ cs) h = elim (Bool-cases (is_client h c)) [
  | inr gone ↦ rw gone (close_clients-HasSections cs h)
  | inl there ↦ elim (Bool-cases (h.closed c)) [
    | inl closed ↦ rw (there, closed) tt
    | inr is_open ↦ rw (there, is_open) (close_clients-HasSections cs (without_client c h))
  ]
]

-- A section after its read, if it had one, is cancelled: it has none, and has cancelled the context.
abbrev pub IsCancelled : Section → Option Section → Type 0
IsCancelled sec none = ⊥
IsCancelled sec (some sec1) =
    (sec1.read_cancel ≡ none)
    × ((context : ℕ)
        → sec.read_cancel ≡ some context
        → is_member context sec1.cancelled_contexts ≡ true)

-- What is left of a hub: its clients are closed, and the reads that its sections have cancelled.
abbrev pub IsOver : Hub → Option Hub → Type 0
IsOver h none = ⊥
IsOver h (some h1) =
    ((c : ℕ) → is_client h c ≡ true → h1.closed c ≡ true)
    × ((name : String) (sec : Section)
        → h.sections name ≡ some sec
        → IsCancelled sec (h1.sections name))

cancelled-IsCancelled : (sec : Section) → IsCancelled sec (some (cancelled sec))
unfolding cancel_read
cancelled-IsCancelled sec = (refl, λ context held. rw held (ground arith))

over :
    (h : Hub) (o : Option Hub)
    → Closes h.clients h o
    → HasSections h.sections o
    → IsOver h (o >>= λ h1. some (each_section cancelled h1))
over h none closes same = closes
over h (some h1) closes same = (
  λ c there. closes c (inr (there, there)),
  λ name sec found.
      let found1 : h1.sections name ≡ some sec = ap (λ s. s name) same ∙ found in
      rw found1 (cancelled-IsCancelled sec),
)

shutdown-IsOver : (h : Hub) → IsSound h → IsOver h (shutdown h)
unfolding shutdown
shutdown-IsOver h s =
    over h (close_clients h.clients h) (close_clients-Closes h.clients h s.registered)
      (close_clients-HasSections h.clients h)

-- The hub that runs through some events, in none of which a client registers or subscribes that it
-- has closed, comes to its end without a panic: it shuts down, with every client closed that was
-- registered; and of each section that had a read, the context of that read is cancelled, and the
-- section has none.
pub run-IsOver :
    (by : AddrSort) (room : Room) (pv_channels : ℤ) (es : List HubEvent)
    → AllHeard by room es (started by pv_channels)
    → (h : Hub) × (run_events by room es (started by pv_channels) ≡ some h)
      × IsOver h (run by room pv_channels es)
unfolding run
run-IsOver by room pv_channels es heard =
    elim (Option-cases (run_events by room es (started by pv_channels))) [
      | inl panics ↦ absurd (subst IsSafe panics (run_events-IsSafe by room pv_channels es heard))
      | inr (h, runs) ↦ (
        h,
        runs,
        rw (run, runs)
            (shutdown-IsOver h
              (subst IsSafe runs (run_events-IsSafe by room pv_channels es heard))),
      )
    ]

-- ===== src/Broker/Calls/Closing.antt =====
-- internal/broker/broker.go: callers that wait when the run loop stops.
use sofar_hyd_diag.Prelude.{
  ℕ, ◌≡◌, refl, ◌⊎◌, inl, inr, true, String, none, some, ◌==◌, ==_iff, update, ap, sym, ◌∙◌,
  Bool-cases, arith,
}
use sofar_hyd_diag.Broker.State.{broker_closed, context_error, Command, World}
use sofar_hyd_diag.Broker.Calls.{
  given_up, Call, unused, offering, waiting, returned, System, with_call, Step, called, taken,
  refused, gave_up_offering, executed, received, gave_up_waiting, closed, stops, Reach, here, next,
}

-- The call waits without a response, or has given up with its context.
abbrev pub Waits : Command → Call → Type 0
Waits c k =
    (k ≡ waiting c) ⊎ ((reason : String) × (k ≡ returned c (given_up c (context_error reason))))

record IsStranded (i : ℕ) (c : Command) (s : System) : Type 0 where
  stopped : s.stopped ≡ true
  no_response : s.responses i ≡ none
  waits : Waits c (s.calls i)

-- A step of another call.
update-Waits :
    (f : ℕ → Call) (i j : ℕ) (k : Call) (c : Command)
    → (j == i ≡ true → Waits c k)
    → Waits c (f i)
    → Waits c (update f j k i)
update-Waits f i j k c here_too waits = elim (Bool-cases (j == i)) [
  | inl same ↦ rw same (here_too same)
  | inr other ↦ rw other waits
]

-- A call that waits, or has given up waiting, is at no earlier place.
not_offering : (c d : Command) (k : Call) → k ≡ offering d → Waits c k → ⊥
not_offering c d k e (inl h) = cc
not_offering c d k e (inr (reason, h)) = cc

not_unused : (c : Command) (k : Call) → k ≡ unused → Waits c k → ⊥
not_unused c k e (inl h) = cc
not_unused c k e (inr (reason, h)) = cc

still_waiting : (c d : Command) (k : Call) → k ≡ waiting d → Waits c k → c ≡ d
still_waiting c d k e (inl h) = cc
still_waiting c d k e (inr (reason, h)) = absurd (ground arith)

module _ (w : World) (rounds : ℕ) (i : ℕ) (c : Command) where
  -- A call that changes leaves the stranded one stranded, unless it is that one.
  with_call-IsStranded :
      (s : System) (j : ℕ) (k : Call)
      → (j ≡ i → Waits c k)
      → IsStranded i c s
      → IsStranded i c (with_call j k s)
  with_call-IsStranded s j k here_too v = record {
    stopped = v.stopped;
    no_response = v.no_response;
    waits = update-Waits s.calls i j k c (λ same. here_too ((==_iff j i).0 same)) v.waits;
  }

  Step-IsStranded : {s t : System} → Step w rounds s t → IsStranded i c s → IsStranded i c t
  Step-IsStranded (called s j d fresh) v =
      with_call-IsStranded s j (offering d)
        (λ same. absurd (not_unused c (s.calls i) (ap s.calls (sym same) ∙ fresh) v.waits)) v
  Step-IsStranded (taken s j d is_offering room) v =
      let v1 =
        with_call-IsStranded s j (waiting d)
          (λ same.
            absurd (not_offering c d (s.calls i) (ap s.calls (sym same) ∙ is_offering) v.waits))
          v in
      record { stopped = v1.stopped; no_response = v1.no_response; waits = v1.waits }
  Step-IsStranded (refused s j d is_offering is_done) v =
      with_call-IsStranded s j (returned d (given_up d broker_closed))
        (λ same.
          absurd (not_offering c d (s.calls i) (ap s.calls (sym same) ∙ is_offering) v.waits))
        v
  Step-IsStranded (gave_up_offering s j d reason is_offering) v =
      with_call-IsStranded s j (returned d (given_up d (context_error reason)))
        (λ same.
          absurd (not_offering c d (s.calls i) (ap s.calls (sym same) ∙ is_offering) v.waits))
        v
  Step-IsStranded (executed s j d rest r b running front runs) v =
      let stopped = v.stopped in absurd (ground arith)
  Step-IsStranded (received s j d r o is_waiting answered gives) v =
      with_call-IsStranded s j (returned d o)
        (λ same.
          let none_here = v.no_response in
          let some_here : s.responses i ≡ some r = ap s.responses (sym same) ∙ answered in
          absurd (ground arith))
        v
  Step-IsStranded (gave_up_waiting s j d reason is_waiting) v =
      with_call-IsStranded s j (returned d (given_up d (context_error reason)))
        (λ same.
          let d_c = still_waiting c d (s.calls i) (ap s.calls (sym same) ∙ is_waiting) v.waits in
          inr (reason, rw d_c refl))
        v
  Step-IsStranded (closed s open_still) v = record {
    stopped = v.stopped;
    no_response = v.no_response;
    waits = v.waits;
  }
  Step-IsStranded (stops s running) v = record {
    stopped = refl;
    no_response = v.no_response;
    waits = v.waits;
  }

  Reach-IsStranded : {s t : System} → Reach w rounds s t → IsStranded i c s → IsStranded i c t
  Reach-IsStranded here v = v
  Reach-IsStranded (next r st) v = Step-IsStranded st (Reach-IsStranded r v)

-- A call that waits for its response when the run loop has stopped, by `Close` or by its context,
-- never gets one: in every state that follows it still waits, or its own context has ended. The
-- second select of no method looks at `done`.
pub stopped-Waits :
    (w : World) (rounds : ℕ) (i : ℕ) (c : Command) (s t : System)
    → s.stopped ≡ true
    → s.calls i ≡ waiting c
    → s.responses i ≡ none
    → Reach w rounds s t
    → (t.calls i ≡ waiting c)
      ⊎ ((reason : String) × (t.calls i ≡ returned c (given_up c (context_error reason))))
stopped-Waits w rounds i c s t is_stopped is_waiting no_response reached =
    (Reach-IsStranded w rounds i c reached
      (record { stopped = is_stopped; no_response = no_response; waits = inl is_waiting })).waits

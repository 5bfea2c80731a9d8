-- ===== src/Broker/Calls/Serial.antt =====
-- internal/broker/broker.go: concurrent callers see a broker that executes one command at a time.
use sofar_hyd_diag.Prelude.{
  ℕ, ◌+◌, ◌≤◌, ◌≡◌, refl, sym, subst, inl, inr, some, List, [], ◌∷◌, map, if◌then◌else◌, All, arith,
}
use sofar_hyd_diag.Broker.State.{broker_closed, context_error, Command, World, Broker}
use sofar_hyd_diag.Broker.Run.{Response, cleanup, run_commands}
use sofar_hyd_diag.Broker.Calls.{
  Outcome, receive, given_up, Call, unused, offering, waiting, returned, Served, System, idle, Step,
  called, taken, refused, gave_up_offering, executed, received, gave_up_waiting, closed, stops,
  Reach, here, next,
}
use sofar_hyd_diag.Broker.Calls.Invariant.{
  InLog, Explained, ExplainedCall, IssuedAs, times_served, times_queued, allowed, Fits, IsSerial,
  with_call-IsSerial,
}
use sofar_hyd_diag.Broker.Calls.Serving.{
  queued-IsSerial, after_command-IsSerial, halted-IsSerial, closed-IsSerial, returned-IsSerial,
}

log-Issued :
    (s : System) (i : ℕ) (c : Command) (r : Response) (xs : List Served)
    → All (λ (x : Served). IssuedAs x.command (s.calls x.call) × Fits x.command x.response) xs
    → InLog i c r xs
    → IssuedAs c (s.calls i) × Fits c r
log-Issued s i c r [] all there = absurd there
log-Issued s i c r (x ∷ xs) all (inl (i_eq, c_eq, r_eq)) = (
  subst (λ n. IssuedAs c (s.calls n)) i_eq (subst (λ d. IssuedAs d (s.calls x.call)) c_eq all.0.0),
  subst (λ q. Fits c q) r_eq (subst (λ d. Fits d x.response) c_eq all.0.1),
)
log-Issued s i c r (x ∷ xs) all (inr there) = log-Issued s i c r xs all.1 there

-- The response of a waiting call is that to its own command, and of the type that it asserts.
own_response :
    (w : World) (rounds : ℕ) (b0 : Broker) (s : System) (i : ℕ) (c : Command) (r : Response)
    → IsSerial w rounds b0 s
    → s.calls i ≡ waiting c
    → s.responses i ≡ some r
    → InLog i c r s.served × Fits c r
own_response w rounds b0 s i c r v is_waiting answered =
    let (d, there) = v.logged i r answered in
    let (issued, fits) = log-Issued s i d r s.served v.log_issued there in
    let same : c ≡ d = subst (IssuedAs d) is_waiting issued in
    (subst (λ e. InLog i e r s.served) (sym same) there, subst (λ e. Fits e r) (sym same) fits)

Step-IsSerial :
    {w : World} {rounds : ℕ} {b0 : Broker} {s t : System}
    → Step w rounds s t
    → IsSerial w rounds b0 s
    → IsSerial w rounds b0 t
Step-IsSerial {w} {rounds} {b0} (called s i c fresh) v =
    with_call-IsSerial w rounds b0 s i (offering c)
      (λ d issued. absurd (subst (IssuedAs d) fresh issued)) tt (rw fresh (omega arith)) v
Step-IsSerial {w} {rounds} {b0} (taken s i c is_offering room) v =
    queued-IsSerial w rounds b0 s i c is_offering v
Step-IsSerial {w} {rounds} {b0} (refused s i c is_offering is_done) v =
    returned-IsSerial w rounds b0 s i c (given_up c broker_closed)
      (λ d issued. absurd (subst (IssuedAs d) is_offering issued)) (inr (inl refl)) v
Step-IsSerial {w} {rounds} {b0} (gave_up_offering s i c reason is_offering) v =
    returned-IsSerial w rounds b0 s i c (given_up c (context_error reason))
      (λ d issued. absurd (subst (IssuedAs d) is_offering issued)) (inr (inr (reason, refl))) v
Step-IsSerial {w} {rounds} {b0} (executed s i c rest r b running front runs) v =
    after_command-IsSerial w rounds b0 s i c rest r b running front runs v
Step-IsSerial {w} {rounds} {b0} (received s i c r o is_waiting answered gives) v =
    returned-IsSerial w rounds b0 s i c o (λ d issued. subst (IssuedAs d) is_waiting issued)
      (inl (r, (own_response w rounds b0 s i c r v is_waiting answered).0, gives)) v
Step-IsSerial {w} {rounds} {b0} (gave_up_waiting s i c reason is_waiting) v =
    returned-IsSerial w rounds b0 s i c (given_up c (context_error reason))
      (λ d issued. subst (IssuedAs d) is_waiting issued) (inr (inr (reason, refl))) v
Step-IsSerial {w} {rounds} {b0} (closed s open_still) v = closed-IsSerial w rounds b0 s v
Step-IsSerial {w} {rounds} {b0} (stops s running) v = halted-IsSerial w rounds b0 s running v

idle-IsSerial : (w : World) (rounds : ℕ) (b0 : Broker) → IsSerial w rounds b0 (idle b0)
unfolding run_commands
idle-IsSerial w rounds b0 = record {
  ran = (b0, refl, refl);
  queue_issued = tt;
  log_issued = tt;
  logged = λ i r answered. absurd (ground arith);
  explained = λ i. tt;
  once = λ i. omega arith;
}

Reach-IsSerial :
    {w : World} {rounds : ℕ} {b0 : Broker} {s t : System}
    → Reach w rounds s t
    → IsSerial w rounds b0 s
    → IsSerial w rounds b0 t
Reach-IsSerial here v = v
Reach-IsSerial (next r st) v = Step-IsSerial st (Reach-IsSerial r v)

-- Whatever calls are made from whatever goroutines, and in whatever order their selects, the run
-- loop and the ends of contexts go: the commands that were executed, one after the other, give the
-- responses and the broker that the sequential run loop gives from the start (with the cleanup
-- after it, once it has stopped); no call's command is executed twice; and a call that has
-- returned returned what its own command got, or gave up by a closed broker or the context's end.
pub idle-refines :
    (w : World) (rounds : ℕ) (b0 : Broker) (s : System)
    → Reach w rounds (idle b0) s
    → ((b : Broker) × (run_commands w rounds (map (λ (x : Served). x.command) s.served) b0
          ≡ some (map (λ (x : Served). x.response) s.served, b))
        × (s.broker ≡ (if s.stopped then cleanup w b else b)))
      × ((i : ℕ) → times_served i s.served ≤ 1)
      × ((i : ℕ) (c : Command) (o : Outcome) → s.calls i ≡ returned c o → Explained i s.served c o)
idle-refines w rounds b0 s reached =
    let v = Reach-IsSerial reached (idle-IsSerial w rounds b0) in
    (
      v.ran,
      λ i. at_most (s.calls i) (times_served i s.served) (times_queued i s.commands) (v.once i),
      λ i c o is_returned. subst (ExplainedCall i s.served) is_returned (v.explained i),
    )
  where
    at_most : (k : Call) (m n : ℕ) → m + n ≤ allowed k → m ≤ 1
    at_most unused m n h = omega arith
    at_most (offering d) m n h = omega arith
    at_most (waiting d) m n h = omega arith
    at_most (returned d p) m n h = omega arith

-- However the goroutines interleave, the type assertion of a method on its response never panics:
-- a call that waits finds in its channel only the response to its own command, and that is of the
-- type asserted.
pub receive-own :
    (w : World) (rounds : ℕ) (b0 : Broker) (s : System) (i : ℕ) (c : Command) (r : Response)
    → Reach w rounds (idle b0) s
    → s.calls i ≡ waiting c
    → s.responses i ≡ some r
    → InLog i c r s.served × ((o : Outcome) × (receive c r ≡ some o))
receive-own w rounds b0 s i c r reached =
    own_response w rounds b0 s i c r (Reach-IsSerial reached (idle-IsSerial w rounds b0))

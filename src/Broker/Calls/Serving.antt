-- ===== src/Broker/Calls/Serving.antt =====
-- internal/broker/broker.go: a command that is queued, one that is executed, and a call that returns.
use mathlib.Core.List.{map-append}
use sofar_hyd_diag.Prelude.{
  ℕ, ◌+◌, ◌≤◌, ◌≡◌, refl, sym, ap, ◌∙◌, subst, inl, inr, true, false, some, List, [], ◌∷◌, ◌++◌,
  map, ◌==◌, ==_iff, update, All, All-append, Bool-cases, arith,
}
use sofar_hyd_diag.Broker.State.{Command, World, Broker}
use sofar_hyd_diag.Broker.Run.{Response, execute, cleanup}
use sofar_hyd_diag.Broker.Calls.{
  Outcome, Call, unused, offering, waiting, returned, Served, System, with_call, queued,
  after_command, halted,
}
use sofar_hyd_diag.Broker.Calls.Invariant.{
  InLog, Explained, ExplainedCall, IssuedAs, times_served, times_queued, allowed, Fits,
  execute-Fits, run_commands-last, IsSerial, with_call-IsSerial,
}

times_queued-append :
    (j : ℕ) (xs ys : List (ℕ × Command))
    → times_queued j (xs ++ ys) ≡ times_queued j xs + times_queued j ys
times_queued-append j [] ys = omega arith
times_queued-append j (x ∷ xs) ys = omega (arith, times_queued-append j xs ys)

times_served-append :
    (j : ℕ) (xs ys : List Served)
    → times_served j (xs ++ ys) ≡ times_served j xs + times_served j ys
times_served-append j [] ys = omega arith
times_served-append j (x ∷ xs) ys = omega (arith, times_served-append j xs ys)

InLog-append :
    (i : ℕ) (c : Command) (r : Response) (xs ys : List Served)
    → InLog i c r xs
    → InLog i c r (xs ++ ys)
InLog-append i c r [] ys h = absurd h
InLog-append i c r (x ∷ xs) ys (inl h) = inl h
InLog-append i c r (x ∷ xs) ys (inr h) = inr (InLog-append i c r xs ys h)

InLog-last :
    (xs : List Served) (i : ℕ) (c : Command) (r : Response)
    → InLog i c r (xs ++ (record { call = i; command = c; response = r } ∷ []))
InLog-last [] i c r = inl (refl, refl, refl)
InLog-last (x ∷ xs) i c r = inr (InLog-last xs i c r)

ExplainedCall-append :
    (i : ℕ) (k : Call) (xs ys : List Served) → ExplainedCall i xs k → ExplainedCall i (xs ++ ys) k
ExplainedCall-append i unused xs ys h = tt
ExplainedCall-append i (offering c) xs ys h = tt
ExplainedCall-append i (waiting c) xs ys h = tt
ExplainedCall-append i (returned c o) xs ys (inl (r, logged, h)) =
    inl (r, InLog-append i c r xs ys logged, h)
ExplainedCall-append i (returned c o) xs ys (inr h) = inr h

module _ (w : World) (rounds : ℕ) (b0 : Broker) (s : System) where
  pub queued-IsSerial :
      (i : ℕ) (c : Command)
      → s.calls i ≡ offering c
      → IsSerial w rounds b0 s
      → IsSerial w rounds b0 (queued i c s)
  queued-IsSerial i c is_offering v =
      let v1 =
        with_call-IsSerial w rounds b0 s i (waiting c)
          (λ d issued. absurd (subst (IssuedAs d) is_offering issued)) tt
          (rw is_offering (omega arith)) v in
      record {
        ran = v1.ran;
        queue_issued =
            All-append (λ (x : ℕ × Command). IssuedAs x.1 (update s.calls i (waiting c) x.0))
              s.commands ((i, c) ∷ []) v1.queue_issued (ground arith, tt);
        log_issued = v1.log_issued;
        logged = v1.logged;
        explained = v1.explained;
        once = λ j.
            let apart = times_queued-append j s.commands ((i, c) ∷ []) in
            let before = v.once j in
            elim (Bool-cases (i == j)) [
              | inl same ↦
                  let none_before : allowed (s.calls j) ≡ 0 =
                    ap allowed (ap s.calls (sym ((==_iff i j).0 same)) ∙ is_offering) in
                  ground arith
              | inr other ↦ ground arith
            ];
      }

  pub after_command-IsSerial :
      (i : ℕ) (c : Command) (rest : List (ℕ × Command)) (r : Response) (b : Broker)
      → s.stopped ≡ false
      → s.commands ≡ (i, c) ∷ rest
      → execute w rounds c s.broker ≡ some (r, b)
      → IsSerial w rounds b0 s
      → IsSerial w rounds b0 (after_command i c rest r b s)
  after_command-IsSerial i c rest r b running front runs v =
      let (issued, rest_issued) =
        subst (All (λ (x : ℕ × Command). IssuedAs x.1 (s.calls x.0))) front v.queue_issued in
      let served_now : Served = record { call = i; command = c; response = r } in
      record {
        ran =
            let (b1, ran, same) = v.ran in
            let same' : s.broker ≡ b1 = rw running at same in
            (
              b,
              rw (map-append, map-append)
                  (run_commands-last w rounds (map (λ (x : Served). x.command) s.served) c b0 b1 b
                    (map (λ (x : Served). x.response) s.served) r ran
                    (subst (λ b2. execute w rounds c b2 ≡ some (r, b)) same' runs)),
              rw running refl,
            );
        queue_issued = rest_issued;
        log_issued =
            All-append
              (λ (x : Served). IssuedAs x.command (s.calls x.call) × Fits x.command x.response)
              s.served (served_now ∷ []) v.log_issued
              ((issued, execute-Fits w rounds c s.broker b r runs), tt);
        logged = λ j r' answered. elim (Bool-cases (i == j)) [
          | inl same ↦
              let r_eq : r ≡ r' = ground arith in
              (
                c,
                subst (λ q. InLog j c q (s.served ++ (served_now ∷ []))) r_eq
                    (subst (λ n. InLog n c r (s.served ++ (served_now ∷ []))) ((==_iff i j).0 same)
                      (InLog-last s.served i c r)),
              )
          | inr other ↦
              let (c', there) = v.logged j r' (ground arith) in
              (c', InLog-append j c' r' s.served (served_now ∷ []) there)
        ];
        explained =
            λ j. ExplainedCall-append j (s.calls j) s.served (served_now ∷ []) (v.explained j);
        once = λ j.
            let apart = times_served-append j s.served (served_now ∷ []) in
            let before = v.once j in
            let popped = ap (times_queued j) front in
            elim (Bool-cases (i == j)) [ inl same ↦ ground arith | inr other ↦ ground arith ];
      }

  pub halted-IsSerial :
      s.stopped ≡ false → IsSerial w rounds b0 s → IsSerial w rounds b0 (halted w s)
  halted-IsSerial running v = record {
    ran = let (b, ran, same) = v.ran in (b, ran, ap (cleanup w) (rw running at same));
    queue_issued = v.queue_issued;
    log_issued = v.log_issued;
    logged = v.logged;
    explained = v.explained;
    once = v.once;
  }

  pub closed-IsSerial : IsSerial w rounds b0 s → IsSerial w rounds b0 (record s { is_done = true })
  closed-IsSerial v = record {
    ran = v.ran;
    queue_issued = v.queue_issued;
    log_issued = v.log_issued;
    logged = v.logged;
    explained = v.explained;
    once = v.once;
  }

  -- A call that returns.
  pub returned-IsSerial :
      (i : ℕ) (c : Command) (o : Outcome)
      → ((d : Command) → IssuedAs d (s.calls i) → c ≡ d)
      → Explained i s.served c o
      → IsSerial w rounds b0 s
      → IsSerial w rounds b0 (with_call i (returned c o) s)
  returned-IsSerial i c o same explains v =
      with_call-IsSerial w rounds b0 s i (returned c o) same explains (at_most (s.calls i)) v
    where
      at_most : (k : Call) → allowed k ≤ 1
      at_most unused = omega arith
      at_most (offering d) = omega arith
      at_most (waiting d) = omega arith
      at_most (returned d p) = omega arith

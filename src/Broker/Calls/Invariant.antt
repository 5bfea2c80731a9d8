-- ===== src/Broker/Calls/Invariant.antt =====
-- internal/broker/broker.go: what is true of the callers and the run loop between two steps.
use sofar_hyd_diag.Prelude.{
  ℕ, ◌+◌, ◌≤◌, ◌≡◌, refl, sym, ap, ◌∙◌, subst, ◌⊎◌, inl, inr, true, String, some, List, [], ◌∷◌,
  ◌++◌, map, ◌==◌, ==_iff, if◌then◌else◌, update, All, All-mono, Bool-cases, Option-cases, arith,
}
use sofar_hyd_diag.Broker.State.{
  broker_closed, context_error, data_bytes, Command, cmd_read, cmd_write, cmd_read_batch,
  cmd_reconfigure, cmd_disconnect, cmd_set_delay, World, Broker,
}
use sofar_hyd_diag.Broker.Run.{Response, one, batch, execute, cleanup, run_commands}
use sofar_hyd_diag.Broker.Calls.{
  Outcome, receive, given_up, Call, unused, offering, waiting, returned, Served, System, with_call,
}

-- The command and the response of a call are in the log.
abbrev pub InLog : ℕ → Command → Response → List Served → Type 0
InLog i c r [] = ⊥
InLog i c r (x ∷ xs) = ((x.call ≡ i) × (x.command ≡ c) × (x.response ≡ r)) ⊎ InLog i c r xs

-- What a call returns: what its own command got, or that it gave up.
abbrev pub Explained : ℕ → List Served → Command → Outcome → Type 0
Explained i log c o =
    ((r : Response) × InLog i c r log × (receive c r ≡ some o))
    ⊎ ((o ≡ given_up c broker_closed)
        ⊎ ((reason : String) × (o ≡ given_up c (context_error reason))))

abbrev pub ExplainedCall : ℕ → List Served → Call → Type 0
ExplainedCall i log (returned c o) = Explained i log c o
ExplainedCall i log _ = Unit {0}

-- The call has put its command on the channel at least, or has given up before.
abbrev pub IssuedAs : Command → Call → Type 0
IssuedAs c (waiting d) = d ≡ c
IssuedAs c (returned d o) = d ≡ c
IssuedAs c _ = ⊥

abbrev pub times_served : ℕ → List Served → ℕ
times_served i [] = 0
times_served i (x ∷ xs) = (if x.call == i then 1 else 0) + times_served i xs

abbrev pub times_queued : ℕ → List (ℕ × Command) → ℕ
times_queued i [] = 0
times_queued i (x ∷ xs) = (if x.0 == i then 1 else 0) + times_queued i xs

abbrev pub allowed : Call → ℕ
allowed unused = 0
allowed (offering c) = 0
allowed _ = 1

-- The type of a response is the one that the caller asserts.
abbrev pub Fits : Command → Response → Type 0
Fits c r = (o : Outcome) × (receive c r ≡ some o)

pub execute-Fits :
    (w : World) (rounds : ℕ) (c : Command) (b b' : Broker) (r : Response)
    → execute w rounds c b ≡ some (r, b')
    → Fits c r
unfolding execute receive
execute-Fits w rounds (cmd_read req) b b' (one r) h = (Outcome.value r, refl)
execute-Fits w rounds (cmd_read req) b b' (batch rs) h = absurd (ground arith)
execute-Fits w rounds (cmd_write req) b b' (one r) h = (Outcome.value r, refl)
execute-Fits w rounds (cmd_write req) b b' (batch rs) h = absurd (ground arith)
execute-Fits w rounds (cmd_read_batch reqs) b b' (one r) h = absurd (ground arith)
execute-Fits w rounds (cmd_read_batch reqs) b b' (batch rs) h = (Outcome.values rs, refl)
execute-Fits w rounds (cmd_reconfigure addr slave_id) b b' (one r) h = (Outcome.value r, refl)
execute-Fits w rounds (cmd_reconfigure addr slave_id) b b' (batch rs) h = absurd (ground arith)
execute-Fits w rounds cmd_disconnect b b' r h = (Outcome.value (data_bytes []), refl)
execute-Fits w rounds (cmd_set_delay delay) b b' r h = (Outcome.value (data_bytes []), refl)

pub run_commands-last :
    (w : World) (rounds : ℕ) (cs : List Command) (c : Command) (b b' b'' : Broker)
    (rs : List Response) (r : Response)
    → run_commands w rounds cs b ≡ some (rs, b')
    → execute w rounds c b' ≡ some (r, b'')
    → run_commands w rounds (cs ++ (c ∷ [])) b ≡ some (rs ++ (r ∷ []), b'')
unfolding run_commands
run_commands-last w rounds [] c b b' b'' rs r h e = ground arith
run_commands-last w rounds (d ∷ cs) c b b' b'' rs r h e =
    elim (Option-cases (execute w rounds d b)) [
      | inl none_left ↦ absurd (ground arith)
      | inr (first, e0) ↦ elim (Option-cases (run_commands w rounds cs first.1)) [
        | inl none_left ↦ absurd (ground arith)
        | inr (rest, e1) ↦
            let rs_eq : first.0 ∷ rest.0 ≡ rs = ground arith in
            let b_eq : rest.1 ≡ b' = ground arith in
            let last =
              run_commands-last w rounds cs c first.1 rest.1 b'' rest.0 r e1
                (ap (execute w rounds c) b_eq ∙ e) in
            rw (e0, run_commands) (rw (last, ← rs_eq) refl)
      ]
    ]

-- What is true of the callers and the run loop between two steps.
pub record IsSerial (w : World) (rounds : ℕ) (b0 : Broker) (s : System) : Type 0 where
  pub ran :
      (b : Broker) × (run_commands w rounds (map (λ (x : Served). x.command) s.served) b0
        ≡ some (map (λ (x : Served). x.response) s.served, b))
      × (s.broker ≡ (if s.stopped then cleanup w b else b))
  pub queue_issued : All (λ (x : ℕ × Command). IssuedAs x.1 (s.calls x.0)) s.commands
  pub log_issued :
      All (λ (x : Served). IssuedAs x.command (s.calls x.call) × Fits x.command x.response) s.served
  pub logged :
      (i : ℕ) (r : Response) → s.responses i ≡ some r → (c : Command) × InLog i c r s.served
  pub explained : (i : ℕ) → ExplainedCall i s.served (s.calls i)
  pub once : (i : ℕ) → times_served i s.served + times_queued i s.commands ≤ allowed (s.calls i)

pub update-IssuedAs :
    (f : ℕ → Call) (i : ℕ) (k : Call) (c : Command) (j : ℕ)
    → (IssuedAs c (f i) → IssuedAs c k)
    → IssuedAs c (f j)
    → IssuedAs c (update f i k j)
update-IssuedAs f i k c j keeps issued = elim (Bool-cases (i == j)) [
  | inl same ↦ rw same (keeps (subst (λ n. IssuedAs c (f n)) (sym ((==_iff i j).0 same)) issued))
  | inr other ↦ rw other issued
]

-- A call that goes on, so that what it issued stays issued.
pub with_call-IsSerial :
    (w : World) (rounds : ℕ) (b0 : Broker) (s : System) (i : ℕ) (k : Call)
    → ((c : Command) → IssuedAs c (s.calls i) → IssuedAs c k)
    → ExplainedCall i s.served k
    → allowed (s.calls i) ≤ allowed k
    → IsSerial w rounds b0 s
    → IsSerial w rounds b0 (with_call i k s)
with_call-IsSerial w rounds b0 s i k keeps explains more v = record {
  ran = v.ran;
  queue_issued =
      All-mono (λ (x : ℕ × Command) issued. update-IssuedAs s.calls i k x.1 x.0 (keeps x.1) issued)
        s.commands v.queue_issued;
  log_issued =
      All-mono
        (λ (x : Served) (issued : IssuedAs x.command (s.calls x.call) × Fits x.command x.response).
          (update-IssuedAs s.calls i k x.command x.call (keeps x.command) issued.0, issued.1))
        s.served v.log_issued;
  logged = v.logged;
  explained = λ j. elim (Bool-cases (i == j)) [
    | inl same ↦ rw same (subst (λ n. ExplainedCall n s.served k) ((==_iff i j).0 same) explains)
    | inr other ↦ rw other (v.explained j)
  ];
  once = λ j. elim (Bool-cases (i == j)) [
    | inl same ↦ rw same (le_at j same)
    | inr other ↦ rw other (v.once j)
  ];
}
  where
    le_at :
        (j : ℕ) → i == j ≡ true → times_served j s.served + times_queued j s.commands ≤ allowed k
    le_at j same =
        subst (λ n. times_served n s.served + times_queued n s.commands ≤ allowed k)
          ((==_iff i j).0 same) (omega (arith, v.once i))

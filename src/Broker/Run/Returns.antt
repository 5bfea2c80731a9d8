-- ===== src/Broker/Run/Returns.antt =====
-- When the run loop of internal/broker/broker.go gets out of its reconnections.
use sofar_hyd_diag.Prelude.{
  ℕ, zero, suc, ◌+◌, ◌≤◌, ◌≡◌, refl, ◌==◌, Option, none, some, List, [], ◌∷◌, length, map, ap,
  Option-cases, inl, inr, ◌⊎◌, Bool-cases, arith, String,
}
use sofar_hyd_diag.Modbus.Conn.{Conn}
use sofar_hyd_diag.Broker.State.{
  disconnected, connecting, context_error, broker_is_dormant, ReadRequest, WriteRequest, fails,
  exhausted_retries, Command, cmd_read, cmd_write, cmd_read_batch, cmd_reconfigure, cmd_disconnect,
  cmd_set_delay, Action, waited, dial_ok, dial_err, dial_err, Dialed-cases, checked_context, World,
  Broker, act,
}
use sofar_hyd_diag.Broker.Execute.{
  set_state, connect_over, wait_after, connect_loop, ensure_connected, read_attempts_limit,
  write_attempts_limit,
}
use sofar_hyd_diag.Broker.Run.{
  Response, one, batch, read_once, read_attempts, execute_read, write_once, write_attempts,
  execute_write, execute_batch, execute, run_commands,
}

abbrev pub waits : List Action → ℕ
waits [] = 0
waits (waited delay ∷ t) = suc (waits t)
waits (_ ∷ t) = waits t

-- After n waits between attempts to connect, the gateway answers, or the context is done.
abbrev pub SettlesAfter : ℕ → World → Type 0
SettlesAfter n w =
    ((t : List Action) (addr : String) → n ≤ waits t → (c : Conn) × (w.dial t addr ≡ dial_ok c))
    ⊎ ((t : List Action) → n ≤ waits t → (reason : String) × (w.cancelled t ≡ some reason))

abbrev Returns {ℓ} : {A : Type ℓ} → Option A → Type ℓ
Returns {A} o = (r : A) × (o ≡ some r)

wait_after-waits :
    (w : World) (e : String) (b : Broker) → waits (wait_after w e b).trace ≡ suc (waits b.trace)
unfolding wait_after set_state
wait_after-waits w e b = ground arith

-- A loop that goes on has not waited n times yet.
goes_on-waits :
    (w : World) (n : ℕ) (b : Broker) (e : String)
    → SettlesAfter n w
    → w.dial b.trace b.addr ≡ dial_err e
    → w.cancelled (wait_after w e b).trace ≡ none
    → suc (waits b.trace) ≤ n
goes_on-waits w n b e (inl reaches) failed on = ground (arith, reaches b.trace b.addr)
goes_on-waits w n b e (inr ends) failed on =
    ground (arith, ends (wait_after w e b).trace, wait_after-waits w e b)

-- A round returns where the loop does with the rounds left, if it goes on at all.
connect_round-Returns :
    (w : World) (rounds : ℕ) (b : Broker)
    → ((e : String)
        → w.dial b.trace b.addr ≡ dial_err e
        → w.cancelled (wait_after w e b).trace ≡ none
        → Returns (connect_loop w rounds (wait_after w e b)))
    → Returns (connect_loop w (suc rounds) b)
unfolding connect_loop
connect_round-Returns w rounds b later = elim (Dialed-cases (w.dial b.trace b.addr)) [
  | inl (c, e) ↦ ((none, connect_over w c b), rw (e, connect_loop))
  | inr (reason, e) ↦ elim (Option-cases (w.cancelled (wait_after w reason b).trace)) [
    | inr (over, e') ↦ (
      (
        some (context_error over),
        set_state w disconnected (some (context_error over)) (wait_after w reason b),
      ),
      rw (e, connect_loop) (rw (e', connect_loop)),
    )
    | inl e' ↦ let (r, h) = later reason e e' in (r, rw (e, connect_loop) (rw (e', connect_loop) h))
  ]
]

connect_loop-Returns :
    (w : World) (n rounds : ℕ) (b : Broker)
    → SettlesAfter n w
    → n ≤ rounds + waits b.trace
    → Returns (connect_loop w (suc rounds) b)
connect_loop-Returns w n zero b settles h = connect_round-Returns w 0 b (λ e failed on.
    let waits_left = goes_on-waits w n b e settles failed on in absurd (omega arith))
connect_loop-Returns w n (suc rounds) b settles h =
    connect_round-Returns w (suc rounds) b (λ e failed on.
      connect_loop-Returns w n rounds (wait_after w e b) settles
        (rw (wait_after-waits w e b) (omega arith)))

ensure_connected-Returns :
    (w : World) (n : ℕ) (b : Broker) → SettlesAfter n w → Returns (ensure_connected w (suc n) b)
unfolding ensure_connected
ensure_connected-Returns w n b settles = elim (Option-cases b.conn) [
  | inr (c, e) ↦ ((none, b), ground arith)
  | inl e ↦ elim (Bool-cases b.dormant) [
    | inl e' ↦ ((some broker_is_dormant, b), ground arith)
    | inr e' ↦
        let (r, h) =
          connect_loop-Returns w n n (set_state w connecting none b) settles (omega arith) in
        (r, ground arith)
  ]
]

pub read_attempts-Returns :
    (w : World) (n left : ℕ) (req : ReadRequest) (b : Broker)
    → SettlesAfter n w
    → Returns (read_attempts w (suc n) left req b)
unfolding read_attempts
read_attempts-Returns w n zero req b settles = ((fails exhausted_retries, b), refl)
read_attempts-Returns w n (suc left) req b settles =
    let (q, e1) = ensure_connected-Returns w n b settles in
    elim (Option-cases q.0) [
      | inr (reason, e2) ↦ ((fails reason, q.1), ground arith)
      | inl e2 ↦ elim (Option-cases q.1.conn) [
        | inl e3 ↦ ((fails exhausted_retries, q.1), ground arith)
        | inr (c, e3) ↦ elim (Option-cases (read_once w req (left == 0) q.1 c).0) [
          | inr (result, e4) ↦ ((result, (read_once w req (left == 0) q.1 c).1), ground arith)
          | inl e4 ↦
              let (r, h) =
                read_attempts-Returns w n left req (read_once w req (left == 0) q.1 c).1 settles in
              (r, ground arith)
        ]
      ]
    ]

pub write_attempts-Returns :
    (w : World) (n left : ℕ) (req : WriteRequest) (b : Broker)
    → SettlesAfter n w
    → Returns (write_attempts w (suc n) left req b)
unfolding write_attempts
write_attempts-Returns w n zero req b settles = ((fails exhausted_retries, b), refl)
write_attempts-Returns w n (suc left) req b settles =
    let (q, e1) = ensure_connected-Returns w n b settles in
    elim (Option-cases q.0) [
      | inr (reason, e2) ↦ ((fails reason, q.1), ground arith)
      | inl e2 ↦ elim (Option-cases q.1.conn) [
        | inl e3 ↦ ((fails exhausted_retries, q.1), ground arith)
        | inr (c, e3) ↦ elim (Option-cases (write_once w req (left == 0) q.1 c).0) [
          | inr (result, e4) ↦ ((result, (write_once w req (left == 0) q.1 c).1), ground arith)
          | inl e4 ↦
              let (r, h) =
                write_attempts-Returns w n left req (write_once w req (left == 0) q.1 c).1
                  settles in
              (r, ground arith)
        ]
      ]
    ]

execute_batch-Returns :
    (w : World) (n : ℕ) (reqs : List ReadRequest) (b : Broker)
    → SettlesAfter n w
    → Returns (execute_batch w (suc n) reqs b)
unfolding execute_batch execute_read
execute_batch-Returns w n [] b settles = (([], b), refl)
execute_batch-Returns w n (req ∷ reqs) b settles = elim (Option-cases (w.cancelled b.trace)) [
  | inr (reason, e) ↦ (
    (map (λ _. fails (context_error reason)) (req ∷ reqs), act checked_context b),
    rw (e, execute_batch),
  )
  | inl e ↦
      let (first, e1) =
        read_attempts-Returns w n read_attempts_limit req (act checked_context b) settles in
      let (rest, e2) = execute_batch-Returns w n reqs first.1 settles in
      ((first.0 ∷ rest.0, rest.1), ground arith)
]

execute-Returns :
    (w : World) (n : ℕ) (c : Command) (b : Broker)
    → SettlesAfter n w
    → Returns (execute w (suc n) c b)
unfolding execute execute_read execute_write
execute-Returns w n (cmd_read req) b settles =
    let (r, e) = read_attempts-Returns w n read_attempts_limit req b settles in
    ((one r.0, r.1), rw e)
execute-Returns w n (cmd_write req) b settles =
    let (r, e) = write_attempts-Returns w n write_attempts_limit req b settles in
    ((one r.0, r.1), rw e)
execute-Returns w n (cmd_read_batch reqs) b settles =
    let (r, e) = execute_batch-Returns w n reqs b settles in ((batch r.0, r.1), rw e)
execute-Returns w n (cmd_reconfigure addr slave_id) b settles = (_, refl)
execute-Returns w n cmd_disconnect b settles = (_, refl)
execute-Returns w n (cmd_set_delay delay) b settles = (_, refl)

-- Where the gateway answers or the context is done after n waits between attempts to connect, the
-- run loop executes any commands, from any state of the broker, and gives each its response, with
-- n + 1 rounds for a reconnection.
pub run_commands-returns :
    (w : World) (n : ℕ) (cs : List Command) (b : Broker)
    → SettlesAfter n w
    → (responses : List Response) × (b' : Broker) × (run_commands w (suc n) cs b
        ≡ some (responses, b'))
      × (length responses ≡ length cs)
unfolding run_commands
run_commands-returns w n [] b settles = ([], b, refl, refl)
run_commands-returns w n (c ∷ cs) b settles =
    let (first, e) = execute-Returns w n c b settles in
    let (responses, b', e', l) = run_commands-returns w n cs first.1 settles in
    (first.0 ∷ responses, b', rw (e, run_commands) (rw (e', run_commands)), ap suc l)

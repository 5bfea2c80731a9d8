-- ===== src/Broker/Run/Link.antt =====
-- The state that internal/broker/broker.go reports, and the connection it holds.
use sofar_hyd_diag.Prelude.{
  ℕ, zero, suc, ◌≡◌, Bool, true, false, ◌&&◌, ◌==◌, Option, none, some, List, [], ◌∷◌, Option-cases,
  inl, inr, arith, String,
}
use sofar_hyd_diag.Modbus.Conn.{Conn}
use sofar_hyd_diag.Broker.State.{
  State, connected, connecting, ReadRequest, WriteRequest, Result, BrokerError, Command, cmd_read,
  cmd_write, cmd_read_batch, cmd_reconfigure, cmd_disconnect, cmd_set_delay, Dialed-cases,
  checked_context, World, Broker, act,
}
use sofar_hyd_diag.Broker.Execute.{
  set_state, close_conn, wait_after, connect_over, connect_loop, ensure_connected,
  enforce_inter_read_delay, handle_error, exchange_read, exchange_write, load_aborting,
  read_attempts_limit, write_attempts_limit,
}
use sofar_hyd_diag.Broker.Run.{
  Response, read_once, read_attempts, execute_read, write_once, write_attempts, execute_write,
  execute_batch, execute_reconfigure, execute_disconnect, execute, run_commands,
}
use sofar_hyd_diag.Broker.Run.Returns.{SettlesAfter, run_commands-returns}

abbrev pub is_connected : State → Bool
is_connected connected = true
is_connected _ = false

abbrev pub has_conn : Option Conn → Bool
has_conn none = false
has_conn (some c) = true

-- The broker says that it is connected where it holds a connection, and a dormant one holds none.
abbrev pub IsLinked : Broker → Type 0
IsLinked b = (is_connected b.state ≡ has_conn b.conn) × (b.dormant && has_conn b.conn ≡ false)

wait_after-down :
    (w : World) (e : String) (b : Broker)
    → (b.conn ≡ none)
    → ((wait_after w e b).conn ≡ none) × ((wait_after w e b).dormant ≡ b.dormant)
unfolding wait_after set_state
wait_after-down w e b none_yet = ground arith

connect_over-IsLinked :
    (w : World) (c : Conn) (b : Broker) → b.dormant ≡ false → IsLinked (connect_over w c b)
unfolding connect_over set_state
connect_over-IsLinked w c b awake = ground arith

connect_loop-IsLinked :
    (w : World) (rounds : ℕ) (b : Broker) (r : Option BrokerError × Broker)
    → b.conn ≡ none
    → b.dormant ≡ false
    → connect_loop w rounds b ≡ some r
    → IsLinked r.1
unfolding connect_loop set_state
connect_loop-IsLinked w zero b r down awake e = cc
connect_loop-IsLinked w (suc rounds) b r down awake e =
    elim (Dialed-cases (w.dial b.trace b.addr)) [
      | inl (c, e') ↦ ground (arith, connect_over-IsLinked w c b)
      | inr (reason, e') ↦
          let still = wait_after-down w reason b down in
          elim (Option-cases (w.cancelled (wait_after w reason b).trace)) [
            | inl e'' ↦ ground (arith, connect_loop-IsLinked w rounds (wait_after w reason b) r)
            | inr (over, e'') ↦ ground arith
          ]
    ]

ensure_connected-IsLinked :
    (w : World) (rounds : ℕ) (b : Broker) (r : Option BrokerError × Broker)
    → IsLinked b
    → ensure_connected w rounds b ≡ some r
    → IsLinked r.1
unfolding ensure_connected set_state
ensure_connected-IsLinked w rounds b r linked e =
    ground (arith, connect_loop-IsLinked w rounds (set_state w connecting none b) r)

read_once-IsLinked :
    (w : World) (req : ReadRequest) (last_attempt : Bool) (b : Broker) (c : Conn)
    → IsLinked b
    → b.conn ≡ some c
    → IsLinked (read_once w req last_attempt b c).1
unfolding read_once exchange_read handle_error close_conn load_aborting enforce_inter_read_delay
    set_state
read_once-IsLinked w req last_attempt b c linked up = ground arith

write_once-IsLinked :
    (w : World) (req : WriteRequest) (last_attempt : Bool) (b : Broker) (c : Conn)
    → IsLinked b
    → b.conn ≡ some c
    → IsLinked (write_once w req last_attempt b c).1
unfolding write_once exchange_write handle_error close_conn set_state
write_once-IsLinked w req last_attempt b c linked up = ground arith

read_attempts-IsLinked :
    (w : World) (rounds left : ℕ) (req : ReadRequest) (b : Broker) (r : Result × Broker)
    → IsLinked b
    → read_attempts w rounds left req b ≡ some r
    → IsLinked r.1
unfolding read_attempts
read_attempts-IsLinked w rounds zero req b r linked e = ground arith
read_attempts-IsLinked w rounds (suc left) req b r linked e =
    elim (Option-cases (ensure_connected w rounds b)) [
      | inl e1 ↦ ground arith
      | inr (q, e1) ↦
          let linked1 = ensure_connected-IsLinked w rounds b q linked e1 in
          elim (Option-cases q.0) [
            | inr (reason, e2) ↦ ground arith
            | inl e2 ↦ elim (Option-cases q.1.conn) [
              | inl e3 ↦ ground arith
              | inr (c, e3) ↦
                  let once = read_once-IsLinked w req (left == 0) q.1 c linked1 e3 in
                  ground (
                    arith,
                    read_attempts-IsLinked w rounds left req (read_once w req (left == 0) q.1 c).1
                        r,
                  )
            ]
          ]
    ]

write_attempts-IsLinked :
    (w : World) (rounds left : ℕ) (req : WriteRequest) (b : Broker) (r : Result × Broker)
    → IsLinked b
    → write_attempts w rounds left req b ≡ some r
    → IsLinked r.1
unfolding write_attempts
write_attempts-IsLinked w rounds zero req b r linked e = ground arith
write_attempts-IsLinked w rounds (suc left) req b r linked e =
    elim (Option-cases (ensure_connected w rounds b)) [
      | inl e1 ↦ ground arith
      | inr (q, e1) ↦
          let linked1 = ensure_connected-IsLinked w rounds b q linked e1 in
          elim (Option-cases q.0) [
            | inr (reason, e2) ↦ ground arith
            | inl e2 ↦ elim (Option-cases q.1.conn) [
              | inl e3 ↦ ground arith
              | inr (c, e3) ↦
                  let once = write_once-IsLinked w req (left == 0) q.1 c linked1 e3 in
                  ground (
                    arith,
                    write_attempts-IsLinked w rounds left req (write_once w req (left == 0) q.1 c).1
                        r,
                  )
            ]
          ]
    ]

execute_batch-IsLinked :
    (w : World) (rounds : ℕ) (reqs : List ReadRequest) (b : Broker) (r : List Result × Broker)
    → IsLinked b
    → execute_batch w rounds reqs b ≡ some r
    → IsLinked r.1
unfolding execute_batch execute_read
execute_batch-IsLinked w rounds [] b r linked e = ground arith
execute_batch-IsLinked w rounds (req ∷ reqs) b r linked e =
    elim (Option-cases (w.cancelled b.trace)) [
      | inr (reason, e1) ↦ ground arith
      | inl e1 ↦
          let here = act checked_context b in
          elim (Option-cases (read_attempts w rounds read_attempts_limit req here)) [
            | inl e2 ↦ ground arith
            | inr (q, e2) ↦
                let linked1 =
                  read_attempts-IsLinked w rounds read_attempts_limit req here q linked e2 in
                elim (Option-cases (execute_batch w rounds reqs q.1)) [
                  | inl e3 ↦ ground arith
                  | inr (q', e3) ↦
                      let linked2 = execute_batch-IsLinked w rounds reqs q.1 q' linked1 e3 in
                      ground arith
                ]
          ]
    ]

execute-IsLinked :
    (w : World) (rounds : ℕ) (c : Command) (b : Broker) (r : Response × Broker)
    → IsLinked b
    → execute w rounds c b ≡ some r
    → IsLinked r.1
unfolding execute execute_read execute_write execute_reconfigure execute_disconnect close_conn
    set_state
execute-IsLinked w rounds (cmd_read req) b r linked e =
    elim (Option-cases (read_attempts w rounds read_attempts_limit req b)) [
      | inl e1 ↦ ground arith
      | inr (q, e1) ↦
          let linked1 = read_attempts-IsLinked w rounds read_attempts_limit req b q linked e1 in
          ground arith
    ]
execute-IsLinked w rounds (cmd_write req) b r linked e =
    elim (Option-cases (write_attempts w rounds write_attempts_limit req b)) [
      | inl e1 ↦ ground arith
      | inr (q, e1) ↦
          let linked1 = write_attempts-IsLinked w rounds write_attempts_limit req b q linked e1 in
          ground arith
    ]
execute-IsLinked w rounds (cmd_read_batch reqs) b r linked e =
    elim (Option-cases (execute_batch w rounds reqs b)) [
      | inl e1 ↦ ground arith
      | inr (q, e1) ↦
          let linked1 = execute_batch-IsLinked w rounds reqs b q linked e1 in ground arith
    ]
execute-IsLinked w rounds (cmd_reconfigure addr slave_id) b r linked e = ground arith
execute-IsLinked w rounds cmd_disconnect b r linked e = ground arith
execute-IsLinked w rounds (cmd_set_delay delay) b r linked e = ground arith

run_commands_keeps :
    (w : World) (rounds : ℕ) (cs : List Command) (b : Broker) (r : List Response × Broker)
    → IsLinked b
    → run_commands w rounds cs b ≡ some r
    → IsLinked r.1
unfolding run_commands
run_commands_keeps w rounds [] b r linked e = ground arith
run_commands_keeps w rounds (c ∷ cs) b r linked e = elim (Option-cases (execute w rounds c b)) [
  | inl e1 ↦ ground arith
  | inr (q, e1) ↦
      let linked1 = execute-IsLinked w rounds c b q linked e1 in
      elim (Option-cases (run_commands w rounds cs q.1)) [
        | inl e2 ↦ ground arith
        | inr (q', e2) ↦
            let linked2 = run_commands_keeps w rounds cs q.1 q' linked1 e2 in ground arith
      ]
]

-- Where the gateway answers or the context is done after n waits between attempts to connect, a
-- broker that says connected just where it holds a connection, and holds none while dormant, is
-- such a broker again after any commands, which all get executed.
pub run_commands-IsLinked :
    (w : World) (n : ℕ) (cs : List Command) (b : Broker)
    → SettlesAfter n w
    → IsLinked b
    → (responses : List Response) × (b' : Broker) × (run_commands w (suc n) cs b
        ≡ some (responses, b'))
      × IsLinked b'
run_commands-IsLinked w n cs b settles linked =
    let (responses, b', e, l) = run_commands-returns w n cs b settles in
    (responses, b', e, run_commands_keeps w (suc n) cs b (responses, b') linked e)

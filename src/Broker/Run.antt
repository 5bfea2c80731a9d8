-- ===== src/Broker/Run.antt =====
-- internal/broker/broker.go: the commands, and the loop that executes them one at a time.
pub mod Attempts
pub mod Retries
pub mod Spacing
pub mod Returns
pub mod Link
pub mod Quiet
use sofar_hyd_diag.Prelude.{
  ℕ, zero, suc, ◌+◌, Bool, true, false, not, String, Option, none, some, List, [], ◌∷◌, map, ◌==◌,
  if◌then◌else◌,
}
use sofar_hyd_diag.Broker.Backoff.{reset}
use sofar_hyd_diag.Modbus.Conn.{Conn}
use sofar_hyd_diag.Modbus.Error.{ModbusError, Reply, ok, err}
use sofar_hyd_diag.Broker.State.{
  disconnected, connecting, connected, BrokerError, exhausted_retries, context_error, dial_error,
  modbus_error, ReadRequest, WriteRequest, Result, data_bytes, fails, Command, cmd_read, cmd_write,
  cmd_read_batch, cmd_reconfigure, cmd_disconnect, cmd_set_delay, dialed, checked_context, dial_ok,
  dial_err, World, Broker, act, is_retryable,
}
use sofar_hyd_diag.Broker.Execute.{
  ◌>>=◌, set_state, close_conn, ensure_connected, enforce_inter_read_delay, handle_error,
  exchange_read, exchange_write, load_aborting, read_attempts_limit, write_attempts_limit,
}

-- One pass of the loop of `executeRead`, after the connection is there: the result that the loop
-- returns, or none where it goes on. `last_attempt` is `attempt == maxAttempts`.
unfoldable pub read_once : World → ReadRequest → Bool → Broker → Conn → Option Result × Broker
read_once w req last_attempt b c =
    let (reply, b1) = exchange_read w req (enforce_inter_read_delay w b) c in
    let b2 = record b1 { last_read_time = some (w.now b1.trace) } in
    elim reply [
      | ok bytes ↦ (some (data_bytes bytes), b2)
      | err e ↦
          let failed = fails (modbus_error e) in
          let b3 = load_aborting w (handle_error w e b2) in
          if not (is_retryable e)
          then (some failed, b2)
          else if b3.aborting
          then (some failed, b3)
          else if last_attempt
          then (some failed, b3)
          else (none, b3)
    ]

-- The first number is the rounds of each reconnection, the second the attempts left.
unfoldable pub read_attempts : World → ℕ → ℕ → ReadRequest → Broker → Option (Result × Broker)
read_attempts w rounds zero req b = some (fails exhausted_retries, b)
read_attempts w rounds (suc left) req b = ensure_connected w rounds b >>= λ r. elim r.0 [
  | some e ↦ some (fails e, r.1)
  | none ↦ elim r.1.conn [
    | none ↦ some (fails exhausted_retries, r.1)
    | some c ↦
        let (done, b') = read_once w req (left == 0) r.1 c in
        elim done [ some result ↦ some (result, b') | none ↦ read_attempts w rounds left req b' ]
  ]
]

unfoldable pub execute_read : World → ℕ → ReadRequest → Broker → Option (Result × Broker)
execute_read w rounds req b = read_attempts w rounds read_attempts_limit req b

unfoldable pub write_once : World → WriteRequest → Bool → Broker → Conn → Option Result × Broker
write_once w req last_attempt b c =
    let (reply, b1) = exchange_write w req b c in
    elim reply [
      | ok _ ↦ (some (data_bytes []), b1)
      | err e ↦
          let b2 = handle_error w e b1 in
          if last_attempt then (some (fails (modbus_error e)), b2) else (none, b2)
    ]

unfoldable pub write_attempts : World → ℕ → ℕ → WriteRequest → Broker → Option (Result × Broker)
write_attempts w rounds zero req b = some (fails exhausted_retries, b)
write_attempts w rounds (suc left) req b = ensure_connected w rounds b >>= λ r. elim r.0 [
  | some e ↦ some (fails e, r.1)
  | none ↦ elim r.1.conn [
    | none ↦ some (fails exhausted_retries, r.1)
    | some c ↦
        let (done, b') = write_once w req (left == 0) r.1 c in
        elim done [ some result ↦ some (result, b') | none ↦ write_attempts w rounds left req b' ]
  ]
]

unfoldable pub execute_write : World → ℕ → WriteRequest → Broker → Option (Result × Broker)
execute_write w rounds req b = write_attempts w rounds write_attempts_limit req b

-- `executeBatch`: the context is checked before each read; once it is done, it stays done, and the
-- reads that are left get its error.
unfoldable pub execute_batch : World → ℕ → List ReadRequest → Broker → Option (List Result × Broker)
execute_batch w rounds [] b = some ([], b)
execute_batch w rounds (req ∷ reqs) b = elim (w.cancelled b.trace) [
  | some reason ↦ some (map (λ _. fails (context_error reason)) (req ∷ reqs), act checked_context b)
  | none ↦ execute_read w rounds req (act checked_context b) >>= λ first.
      execute_batch w rounds reqs first.1 >>= λ rest. some (first.0 ∷ rest.0, rest.1)
]

unfoldable pub execute_reconfigure : World → String → ℕ → Broker → Option BrokerError × Broker
execute_reconfigure w addr slave_id b =
    let b1 = record (close_conn b) {
      addr = addr;
      slave_id = slave_id;
      dormant = false;
      backoff = reset b.backoff;
    } in
    let b2 = act (dialed addr) (set_state w connecting none b1) in
    elim (w.dial (set_state w connecting none b1).trace addr) [
      | dial_err e ↦ (some (dial_error e), set_state w disconnected (some (dial_error e)) b2)
      | dial_ok c ↦ (none, set_state w connected none (record b2 { conn = some c }))
    ]

unfoldable pub execute_disconnect : World → Broker → Broker
execute_disconnect w b =
    set_state w disconnected none
      (record (close_conn (record b { aborting = false })) { dormant = true })

-- What `execute` sends on the response channel of a command.
pub data Response : Type 0 where
  one : Result → Response
  batch : List Result → Response

unfoldable pub execute : World → ℕ → Command → Broker → Option (Response × Broker)
execute w rounds (cmd_read req) b = execute_read w rounds req b >>= λ r. some (one r.0, r.1)
execute w rounds (cmd_write req) b = execute_write w rounds req b >>= λ r. some (one r.0, r.1)
execute w rounds (cmd_read_batch reqs) b =
    execute_batch w rounds reqs b >>= λ r. some (batch r.0, r.1)
execute w rounds (cmd_reconfigure addr slave_id) b =
    let (e, b') = execute_reconfigure w addr slave_id b in
    some (one (elim e [ none ↦ data_bytes [] | some e' ↦ fails e' ]), b')
execute w rounds cmd_disconnect b = some (one (data_bytes []), execute_disconnect w b)
execute w rounds (cmd_set_delay delay) b =
    some (one (data_bytes []), record b { inter_read_delay = delay })

-- `cleanup`, without the closing of stateCh.
unfoldable pub cleanup : World → Broker → Broker
cleanup w b = set_state w disconnected none (close_conn b)

-- The commands that the run loop takes before it is stopped, in their order, and the stop.
unfoldable pub run_commands : World → ℕ → List Command → Broker → Option (List Response × Broker)
run_commands w rounds [] b = some ([], b)
run_commands w rounds (c ∷ cs) b = execute w rounds c b >>= λ first.
    run_commands w rounds cs first.1 >>= λ rest. some (first.0 ∷ rest.0, rest.1)

unfoldable pub run : World → ℕ → List Command → Broker → Option (List Response × Broker)
run w rounds cs b = run_commands w rounds cs b >>= λ r. some (r.0, cleanup w r.1)

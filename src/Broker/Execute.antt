-- ===== src/Broker/Execute.antt =====
-- The handlers of internal/broker/broker.go, as the run loop calls them. A value of type
-- `Option (A × Broker)` is none where the rounds given to the reconnection loop are not enough.
use sofar_hyd_diag.Prelude.{
  ℕ, zero, suc, ◌+◌, ◌-◌, ◌%◌, Bool, true, false, ◌||◌, String, Option, none, some, List, [], ◌∷◌,
  ltb, if◌then◌else◌,
}
use sofar_hyd_diag.Broker.Backoff.{next, reset, new_backoff}
use sofar_hyd_diag.Modbus.Conn.{Conn}
use sofar_hyd_diag.Modbus.Error.{ModbusError, Reply}
use sofar_hyd_diag.Modbus.Rtu.{read_holding_registers_rtu, write_single_register_rtu}
use sofar_hyd_diag.Modbus.Tcp.{next_tx_id, read_holding_registers_tcp, write_multiple_registers_tcp}
use sofar_hyd_diag.Broker.State.{
  State, disconnected, connecting, connected, reconnecting, BrokerError, broker_is_dormant,
  context_error, dial_error, modbus_error, ReadRequest, WriteRequest, dialed, closed_conn,
  read_sent, write_sent, waited, slept, state_set, loaded_abort, dial_ok, dial_err, World, Broker,
  act,
}

infixl 5 ◌>>=◌
abbrev pub ◌>>=◌ {ℓ κ} : {A : Type ℓ} {B : Type κ} → Option A → (A → Option B) → Option B
none >>= f = none
some a >>= f = f a

-- `New`. Durations are in nanoseconds: a backoff of 1 s up to 30 s, and 500 ms between reads.
unfoldable pub new : String → ℕ → Bool → Broker
unfolding new_backoff
new addr slave_id use_rtu = record {
  addr = addr;
  slave_id = slave_id;
  use_rtu = use_rtu;
  conn = none;
  aborting = false;
  state = State.dormant;
  state_events = [];
  backoff = new_backoff 1000000000 30000000000;
  inter_read_delay = 500000000;
  last_read_time = none;
  dormant = true;
  transaction_id = 0;
  trace = [];
}

-- `setState`.
unfoldable pub set_state : World → State → Option BrokerError → Broker → Broker
set_state w s e b =
    let b' = act (state_set s) (record b { state = s }) in
    if w.event_room b.trace
    then record b' { state_events = record { state = s; err = e } ∷ b'.state_events }
    else b'

-- `if b.conn != nil { _ = b.conn.Close(); b.conn = nil }`.
unfoldable pub close_conn : Broker → Broker
close_conn b = elim b.conn [ none ↦ b | some _ ↦ act closed_conn (record b { conn = none }) ]

-- A round of the loop of `ensureConnected` whose dial succeeds.
unfoldable pub connect_over : World → Conn → Broker → Broker
connect_over w c b =
    set_state w connected none
      (record (act (dialed b.addr) b) { conn = some c; backoff = reset b.backoff })

-- A round whose dial fails, with the wait for the backoff or the end of the context.
unfoldable pub wait_after : World → String → Broker → Broker
wait_after w e b =
    let b1 = set_state w reconnecting (some (dial_error e)) (act (dialed b.addr) b) in
    let (delay, backoff') = next b1.backoff in act (waited delay) (record b1 { backoff = backoff' })

-- The loop of `ensureConnected`: the rounds left.
unfoldable pub connect_loop : World → ℕ → Broker → Option (Option BrokerError × Broker)
connect_loop w zero b = none
connect_loop w (suc rounds) b = elim (w.dial b.trace b.addr) [
  | dial_ok c ↦ some (none, connect_over w c b)
  | dial_err e ↦ elim (w.cancelled (wait_after w e b).trace) [
    | some reason ↦ some (
      some (context_error reason),
      set_state w disconnected (some (context_error reason)) (wait_after w e b),
    )
    | none ↦ connect_loop w rounds (wait_after w e b)
  ]
]

unfoldable pub ensure_connected : World → ℕ → Broker → Option (Option BrokerError × Broker)
ensure_connected w rounds b = elim b.conn [
  | some _ ↦ some (none, b)
  | none ↦
      if b.dormant
      then some (some broker_is_dormant, b)
      else connect_loop w rounds (set_state w connecting none b)
]

-- `enforceInterReadDelay`.
unfoldable pub enforce_inter_read_delay : World → Broker → Broker
enforce_inter_read_delay w b = elim b.last_read_time [
  | none ↦ record b { last_read_time = some (w.now b.trace) }
  | some last ↦
      let elapsed = w.now b.trace - last in
      if ltb elapsed b.inter_read_delay then act (slept (b.inter_read_delay - elapsed)) b else b
]

-- `handleError`.
unfoldable pub handle_error : World → ModbusError → Broker → Broker
handle_error w e b =
    let b1 = close_conn b in
    set_state w (if b1.dormant then disconnected else reconnecting) (some (modbus_error e)) b1

-- The request over the connection, in the protocol chosen. A nil connection is never used: the
-- callers have just made sure of it.
unfoldable pub exchange_read : World → ReadRequest → Broker → Conn → Reply (List ℕ) × Broker
exchange_read w req b c =
    let c' = w.peer b.trace c in
    let rounds = w.rounds b.trace in
    let b1 = act (read_sent req) b in
    if b.use_rtu
    then (let (reply, c'') = read_holding_registers_rtu b.slave_id req.addr req.count c' in
        (reply, record b1 { conn = some c'' }))
    else (let tx = (b.transaction_id + 1) % 4294967296 in
        let (reply, c'') =
          read_holding_registers_tcp rounds (next_tx_id b.transaction_id) b.slave_id req.addr
            req.count c' in
        (reply, record b1 { conn = some c''; transaction_id = tx }))

unfoldable pub exchange_write : World → WriteRequest → Broker → Conn → Reply (Unit {0}) × Broker
exchange_write w req b c =
    let c' = w.peer b.trace c in
    let rounds = w.rounds b.trace in
    let b1 = act (write_sent req) b in
    if b.use_rtu
    then (let (reply, c'') = write_single_register_rtu b.slave_id req.addr req.value c' in
        (reply, record b1 { conn = some c'' }))
    else (let tx = (b.transaction_id + 1) % 4294967296 in
        let (reply, c'') =
          write_multiple_registers_tcp rounds (next_tx_id b.transaction_id) b.slave_id req.addr
            req.value c' in
        (reply, record b1 { conn = some c''; transaction_id = tx }))

-- `b.aborting.Load()`, after whatever `abortRead` has stored from another goroutine.
unfoldable pub load_aborting : World → Broker → Broker
load_aborting w b =
    act loaded_abort (record b { aborting = b.aborting || w.abort_requested b.trace })

abbrev pub read_attempts_limit : ℕ
read_attempts_limit = 3

abbrev pub write_attempts_limit : ℕ
write_attempts_limit = 2

-- ===== src/Broker/Examples.antt =====
-- The theorems on the broker, with a gateway that is up from the second attempt to connect on.
use sofar_hyd_diag.Prelude.{
  ℕ, ◌+◌, ◌*◌, ◌^◌, ◌≤◌, ◌≡◌, refl, true, false, min, ltb, none, some, List, [], ◌∷◌, length, inl,
  if◌then◌else◌, String, arith,
}
use sofar_hyd_diag.Modbus.Conn.{Conn}
use sofar_hyd_diag.Broker.Backoff.{next, reset, new_backoff, after_calls, next-after_reset}
use sofar_hyd_diag.Broker.State.{
  State, connecting, is_retryable, connected, Command, cmd_read, cmd_write, cmd_read_batch,
  cmd_disconnect, cmd_set_delay, Action, slept, fails, modbus_error, dial_ok, dial_err, Result,
  World, Broker,
}
use sofar_hyd_diag.Broker.Execute.{
  connect_over, connect_loop, ensure_connected, set_state, close_conn, handle_error, load_aborting,
  new, exchange_read, enforce_inter_read_delay,
}
use sofar_hyd_diag.Modbus.Error.{exception, error_text}
use sofar_hyd_diag.Modbus.Conn.{read_full, read_chunks}
use sofar_hyd_diag.Modbus.Tcp.{read_holding_registers_tcp, tcp_responses, tcp_accept, next_tx_id}
use sofar_hyd_diag.Broker.Run.Retries.{execute_read-illegal_address}
use sofar_hyd_diag.Broker.Run.Spacing.{HasClock, read_once-enforce_inter_read_delay}
use sofar_hyd_diag.Broker.Run.{
  Response, read_once, execute_read, execute_write, execute_disconnect, run_commands,
}
use sofar_hyd_diag.Broker.Run.Attempts.{
  reads_sent, writes_sent, execute_read-sends, execute_write-sends,
}
use sofar_hyd_diag.Broker.Run.Link.{has_conn, IsLinked, run_commands-IsLinked}
use sofar_hyd_diag.Broker.Run.Quiet.{IsQuiet, contacts, execute_disconnect-run_commands}
use sofar_hyd_diag.Broker.Run.Returns.{waits, run_commands-returns}

next-after_reset_example :
    (next (after_calls 6 (reset (new_backoff 1000000000 30000000000)))).0
    ≡ min (1000000000 * 2 ^ 6) 30000000000
unfolding new_backoff
next-after_reset_example =
    next-after_reset 6 (new_backoff 1000000000 30000000000) (omega arith) (omega arith)

abbrev idle_conn : Conn
idle_conn = record { incoming = []; read_error = "i/o timeout"; write_error = none; written = [] }

-- The gateway answers once the broker has waited; the connection is silent.
abbrev late_world : World
late_world = record {
  dial = λ t addr. if ltb 0 (waits t) then dial_ok idle_conn else dial_err "connection refused";
  peer = λ t c. c;
  rounds = λ t. 1;
  cancelled = λ t. none;
  now = λ t. length t;
  event_room = λ t. ltb (length t) 16;
  abort_requested = λ t. false;
}

late_world-settles :
    (t : List Action) (addr : String)
    → 1 ≤ waits t
    → (c : Conn) × (late_world.dial t addr ≡ dial_ok c)
late_world-settles t addr h = (idle_conn, ground arith)

-- Awake and without a connection, as after a lost connection.
abbrev woken : Broker
woken = record (new "192.168.1.10:8899" 1 true) { dormant = false; state = State.reconnecting }

abbrev sample_commands : List Command
sample_commands =
    cmd_read (record { addr = 0x0404; count = 1 })
    ∷ cmd_write (record { addr = 0x9020; value = 1 })
    ∷ cmd_read_batch
        (record { addr = 0x0604; count = 7 } ∷ record { addr = 0x0644; count = 3 } ∷ [])
    ∷ cmd_disconnect
    ∷ cmd_set_delay 50
    ∷ []

run_commands-returns_example :
    (responses : List Response) × (b' : Broker) × (run_commands late_world 2 sample_commands woken
      ≡ some (responses, b'))
    × (length responses ≡ length sample_commands)
run_commands-returns_example =
    run_commands-returns late_world 1 sample_commands woken (inl late_world-settles)

run_commands-IsLinked_example :
    (responses : List Response) × (b' : Broker) × (run_commands late_world 2 sample_commands woken
      ≡ some (responses, b'))
    × IsLinked b'
unfolding new
run_commands-IsLinked_example =
    run_commands-IsLinked late_world 1 sample_commands woken (inl late_world-settles) (refl, refl)

execute_read-sends_example :
    (result : Result) × (b' : Broker) × (execute_read late_world 2
        (record { addr = 0x0404; count = 1 })
        woken
      ≡ some (result, b'))
    × (reads_sent b'.trace ≤ reads_sent woken.trace + 3)
    × (writes_sent b'.trace ≤ writes_sent woken.trace + 0)
execute_read-sends_example =
    execute_read-sends late_world 1 (record { addr = 0x0404; count = 1 }) woken
      (inl late_world-settles)

execute_write-sends_example :
    (result : Result) × (b' : Broker) × (execute_write late_world 2
        (record { addr = 0x9020; value = 1 })
        woken
      ≡ some (result, b'))
    × (reads_sent b'.trace ≤ reads_sent woken.trace + 0)
    × (writes_sent b'.trace ≤ writes_sent woken.trace + 2)
execute_write-sends_example =
    execute_write-sends late_world 1 (record { addr = 0x9020; value = 1 }) woken
      (inl late_world-settles)

-- A broker that holds a connection.
abbrev linked : Broker
linked = record woken { conn = some idle_conn; state = connected }

execute_disconnect-run_commands_example :
    (responses : List Response) × (b' : Broker) × (run_commands late_world 1 sample_commands
        (execute_disconnect late_world linked)
      ≡ some (responses, b'))
    × IsQuiet b'
    × (contacts b'.trace ≡ contacts linked.trace)
execute_disconnect-run_commands_example =
    execute_disconnect-run_commands late_world 1 sample_commands linked
      ((λ h. h), ((λ h. h), ((λ h. h), ((λ h. h), ((λ h. h), tt)))))

-- A gateway that answers the first request over TCP with exception 0x02, and a clock that only
-- sleeps move.
abbrev time_slept : List Action → ℕ
time_slept [] = 1
time_slept (slept delay ∷ t) = time_slept t + delay
time_slept (_ ∷ t) = time_slept t

abbrev refusing_world : World
refusing_world = record late_world {
  peer = λ t c. record c { incoming = (0 ∷ 1 ∷ 0 ∷ 0 ∷ 0 ∷ 3 ∷ 1 ∷ 0x83 ∷ 0x02 ∷ []) ∷ [] };
  now = time_slept;
}

abbrev linked_tcp : Broker
linked_tcp = record linked { use_rtu = false }

execute_read-illegal_address_example :
    (b' : Broker) × (execute_read refusing_world 0 (record { addr = 0x0404; count = 1 }) linked_tcp
      ≡ some (fails (modbus_error (exception 0x83 0x02)), b'))
    × (reads_sent b'.trace ≡ reads_sent linked_tcp.trace + 1)
    × (has_conn b'.conn ≡ true)
unfolding new new_backoff exchange_read enforce_inter_read_delay read_holding_registers_tcp
    tcp_responses tcp_accept read_full read_chunks next_tx_id
execute_read-illegal_address_example =
    execute_read-illegal_address refusing_world 0 (record { addr = 0x0404; count = 1 }) linked_tcp
      idle_conn refl refl

time_slept-ticks : (a : Action) (t : List Action) → time_slept t ≤ time_slept (a ∷ t)
time_slept-ticks a t = ground arith

refusing_clock : HasClock refusing_world
refusing_clock = record { ticking = time_slept-ticks; sleeping = λ delay t. omega arith }

-- One that fails each request and is reached by each dial.
abbrev faulty_world : World
faulty_world = record refusing_world {
  peer = λ t c. record c { incoming = (0 ∷ 1 ∷ 0 ∷ 0 ∷ 0 ∷ 3 ∷ 1 ∷ 0x83 ∷ 0x04 ∷ []) ∷ [] };
  dial = λ t addr. dial_ok idle_conn;
}

abbrev failed_read : Broker
failed_read =
    (read_once faulty_world (record { addr = 0x0404; count = 1 }) false linked_tcp idle_conn).1

abbrev linked_again : Broker
linked_again =
    connect_over faulty_world idle_conn (set_state faulty_world connecting none failed_read)

read_once-enforce_inter_read_delay_example :
    let ended =
      faulty_world.now
        (exchange_read faulty_world
          (record { addr = 0x0404; count = 1 })
          (enforce_inter_read_delay faulty_world linked_tcp)
          idle_conn).1.trace in
    ended + linked_tcp.inter_read_delay
    ≤ faulty_world.now (enforce_inter_read_delay faulty_world linked_again).trace
unfolding new new_backoff read_once exchange_read enforce_inter_read_delay handle_error close_conn
    set_state load_aborting read_holding_registers_tcp tcp_responses tcp_accept read_full
    read_chunks next_tx_id ensure_connected connect_loop is_retryable error_text
read_once-enforce_inter_read_delay_example =
    read_once-enforce_inter_read_delay faulty_world 1 (record { addr = 0x0404; count = 1 }) false
      linked_tcp idle_conn none linked_again
      (record { ticking = time_slept-ticks; sleeping = λ delay t. omega arith }) refl

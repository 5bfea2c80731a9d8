-- ===== src/Broker/Run/Attempts.antt =====
-- How many requests a command of internal/broker/broker.go sends at most.
use sofar_hyd_diag.Prelude.{
  ℕ, zero, suc, ◌+◌, ◌≤◌, ◌≡◌, Bool, ◌==◌, String, Option, none, some, List, [], ◌∷◌, Option-cases,
  inl, inr, arith,
}
use sofar_hyd_diag.Modbus.Conn.{Conn}
use sofar_hyd_diag.Broker.State.{
  ReadRequest, WriteRequest, Result, BrokerError, Action, read_sent, write_sent, World, State,
  disconnected, context_error, Dialed-cases, Broker,
}
use sofar_hyd_diag.Broker.Execute.{
  set_state, close_conn, connect_loop, ensure_connected, wait_after, connect_over,
  enforce_inter_read_delay, handle_error, exchange_read, exchange_write, load_aborting,
  read_attempts_limit, write_attempts_limit,
}
use sofar_hyd_diag.Broker.Run.{
  read_once, read_attempts, execute_read, write_once, write_attempts, execute_write,
}
use sofar_hyd_diag.Broker.Run.Returns.{SettlesAfter, read_attempts-Returns, write_attempts-Returns}

abbrev pub reads_sent : List Action → ℕ
reads_sent [] = 0
reads_sent (read_sent r ∷ t) = suc (reads_sent t)
reads_sent (_ ∷ t) = reads_sent t

abbrev pub writes_sent : List Action → ℕ
writes_sent [] = 0
writes_sent (write_sent r ∷ t) = suc (writes_sent t)
writes_sent (_ ∷ t) = writes_sent t

-- The requests of both kinds sent between two states.
abbrev SentBy : ℕ → ℕ → Broker → Broker → Type 0
SentBy reads writes b b' =
    (reads_sent b'.trace ≤ reads_sent b.trace + reads)
    × (writes_sent b'.trace ≤ writes_sent b.trace + writes)

set_state-sent :
    (w : World) (s : State) (e : Option BrokerError) (b : Broker) → SentBy 0 0 b (set_state w s e b)
unfolding set_state
set_state-sent w s e b = ground arith

wait_after-sent : (w : World) (e : String) (b : Broker) → SentBy 0 0 b (wait_after w e b)
unfolding wait_after set_state
wait_after-sent w e b = ground arith

connect_over-sent : (w : World) (c : Conn) (b : Broker) → SentBy 0 0 b (connect_over w c b)
unfolding connect_over set_state
connect_over-sent w c b = ground arith

connect_loop-sent :
    (w : World) (rounds : ℕ) (b : Broker) (r : Option BrokerError × Broker)
    → connect_loop w rounds b ≡ some r
    → SentBy 0 0 b r.1
unfolding connect_loop
connect_loop-sent w zero b r e = cc
connect_loop-sent w (suc rounds) b r e = elim (Dialed-cases (w.dial b.trace b.addr)) [
  | inl (c, e') ↦ ground (arith, connect_over-sent w c b)
  | inr (reason, e') ↦ elim (Option-cases (w.cancelled (wait_after w reason b).trace)) [
    | inl e'' ↦
        ground
          (arith, connect_loop-sent w rounds (wait_after w reason b) r, wait_after-sent w reason b)
    | inr (over, e'') ↦ ground (
      arith,
      wait_after-sent w reason b,
      set_state-sent w disconnected (some (context_error over)) (wait_after w reason b),
    )
  ]
]

ensure_connected-sent :
    (w : World) (rounds : ℕ) (b : Broker) (r : Option BrokerError × Broker)
    → ensure_connected w rounds b ≡ some r
    → SentBy 0 0 b r.1
unfolding ensure_connected
ensure_connected-sent w rounds b r e = ground (
  arith,
  connect_loop-sent w rounds (set_state w State.connecting none b) r,
  set_state-sent w State.connecting none b,
)

read_once-sent :
    (w : World) (req : ReadRequest) (last_attempt : Bool) (b : Broker) (c : Conn)
    → SentBy 1 0 b (read_once w req last_attempt b c).1
unfolding read_once exchange_read handle_error close_conn load_aborting enforce_inter_read_delay
    set_state
read_once-sent w req last_attempt b c = ground arith

write_once-sent :
    (w : World) (req : WriteRequest) (last_attempt : Bool) (b : Broker) (c : Conn)
    → SentBy 0 1 b (write_once w req last_attempt b c).1
unfolding write_once exchange_write handle_error close_conn set_state
write_once-sent w req last_attempt b c = ground arith

read_attempts-sent :
    (w : World) (rounds left : ℕ) (req : ReadRequest) (b : Broker) (r : Result × Broker)
    → read_attempts w rounds left req b ≡ some r
    → SentBy left 0 b r.1
unfolding read_attempts
read_attempts-sent w rounds zero req b r e = ground arith
read_attempts-sent w rounds (suc left) req b r e =
    elim (Option-cases (ensure_connected w rounds b)) [
      | inl e1 ↦ ground arith
      | inr (q, e1) ↦
          let sent = ensure_connected-sent w rounds b q e1 in
          elim (Option-cases q.0) [
            | inr (reason, e2) ↦ ground arith
            | inl e2 ↦ elim (Option-cases q.1.conn) [
              | inl e3 ↦ ground arith
              | inr (c, e3) ↦
                  let once = read_once-sent w req (left == 0) q.1 c in
                  ground (
                    arith,
                    read_attempts-sent w rounds left req (read_once w req (left == 0) q.1 c).1 r,
                  )
            ]
          ]
    ]

write_attempts-sent :
    (w : World) (rounds left : ℕ) (req : WriteRequest) (b : Broker) (r : Result × Broker)
    → write_attempts w rounds left req b ≡ some r
    → SentBy 0 left b r.1
unfolding write_attempts
write_attempts-sent w rounds zero req b r e = ground arith
write_attempts-sent w rounds (suc left) req b r e =
    elim (Option-cases (ensure_connected w rounds b)) [
      | inl e1 ↦ ground arith
      | inr (q, e1) ↦
          let sent = ensure_connected-sent w rounds b q e1 in
          elim (Option-cases q.0) [
            | inr (reason, e2) ↦ ground arith
            | inl e2 ↦ elim (Option-cases q.1.conn) [
              | inl e3 ↦ ground arith
              | inr (c, e3) ↦
                  let once = write_once-sent w req (left == 0) q.1 c in
                  ground (
                    arith,
                    write_attempts-sent w rounds left req (write_once w req (left == 0) q.1 c).1 r,
                  )
            ]
          ]
    ]

-- Where the gateway answers or the context is done after n waits between attempts to connect, a
-- read command returns, from any state of the broker, having sent at most three read requests and
-- no write request.
pub execute_read-sends :
    (w : World) (n : ℕ) (req : ReadRequest) (b : Broker)
    → SettlesAfter n w
    → (result : Result) × (b' : Broker) × (execute_read w (suc n) req b ≡ some (result, b'))
      × (reads_sent b'.trace ≤ reads_sent b.trace + 3)
      × (writes_sent b'.trace ≤ writes_sent b.trace + 0)
unfolding execute_read
execute_read-sends w n req b settles =
    let (r, e) = read_attempts-Returns w n read_attempts_limit req b settles in
    let sent = read_attempts-sent w (suc n) read_attempts_limit req b r e in
    (r.0, r.1, e, sent.0, sent.1)

-- Where the gateway answers or the context is done after n waits between attempts to connect, a
-- write command returns, from any state of the broker, having sent at most two write requests and
-- no read request.
pub execute_write-sends :
    (w : World) (n : ℕ) (req : WriteRequest) (b : Broker)
    → SettlesAfter n w
    → (result : Result) × (b' : Broker) × (execute_write w (suc n) req b ≡ some (result, b'))
      × (reads_sent b'.trace ≤ reads_sent b.trace + 0)
      × (writes_sent b'.trace ≤ writes_sent b.trace + 2)
unfolding execute_write
execute_write-sends w n req b settles =
    let (r, e) = write_attempts-Returns w n write_attempts_limit req b settles in
    let sent = write_attempts-sent w (suc n) write_attempts_limit req b r e in
    (r.0, r.1, e, sent.0, sent.1)

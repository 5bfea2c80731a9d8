-- ===== src/Broker/Run/Spacing.antt =====
-- The delay between two requests (enforceInterReadDelay of internal/broker/broker.go).
use sofar_hyd_diag.Prelude.{
  ℕ, zero, suc, ◌+◌, ◌-◌, ◌≤◌, ◌≡◌, refl, subst, ◌∙◌, Bool, String, Option, none, some, List, ◌∷◌,
  ◌⊎◌, inl, inr, if_both, Option-cases, arith,
}
use sofar_hyd_diag.Broker.Backoff.{next, reset}
use sofar_hyd_diag.Modbus.Conn.{Conn}
use sofar_hyd_diag.Modbus.Error.{ModbusError, Reply, ok, err}
use sofar_hyd_diag.Broker.State.{
  ReadRequest, Action, slept, closed_conn, loaded_abort, state_set, disconnected, reconnecting,
  State, connecting, connected, BrokerError, context_error, dial_error, dialed, waited,
  Dialed-cases, World, Broker, act,
}
use sofar_hyd_diag.Broker.Execute.{
  connect_over, wait_after, connect_loop, ensure_connected, set_state, close_conn,
  enforce_inter_read_delay, handle_error, exchange_read, load_aborting,
}
use sofar_hyd_diag.Broker.Run.{read_once}

-- The clock does not go back, and a sleep takes the time asked for at least.
pub record HasClock (w : World) : Type 0 where
  pub ticking : (a : Action) (t : List Action) → w.now t ≤ w.now (a ∷ t)
  pub sleeping : (delay : ℕ) (t : List Action) → w.now t + delay ≤ w.now (slept delay ∷ t)

reply_cases :
    (r : Reply (List ℕ)) → ((bytes : List ℕ) × (r ≡ ok bytes)) ⊎ ((e : ModbusError) × (r ≡ err e))
reply_cases (ok bytes) = inl (bytes, refl)
reply_cases (err e) = inr (e, refl)

module _ (w : World) (clock : HasClock w) where
  enforce-waits :
      (b : Broker) (last : ℕ)
      → b.last_read_time ≡ some last
      → last ≤ w.now b.trace
      → last + b.inter_read_delay ≤ w.now (enforce_inter_read_delay w b).trace
  unfolding enforce_inter_read_delay
  enforce-waits b last stamped past =
      ground (arith, clock.sleeping (b.inter_read_delay - (w.now b.trace - last)) b.trace)

  close_conn-later :
      (b : Broker)
      → (w.now b.trace ≤ w.now (close_conn b).trace)
        × ((close_conn b).last_read_time ≡ b.last_read_time)
        × ((close_conn b).inter_read_delay ≡ b.inter_read_delay)
  unfolding close_conn
  close_conn-later b = ground (arith, clock.ticking closed_conn b.trace)

  handle_error-later :
      (e : ModbusError) (b : Broker)
      → (w.now b.trace ≤ w.now (handle_error w e b).trace)
        × ((handle_error w e b).last_read_time ≡ b.last_read_time)
        × ((handle_error w e b).inter_read_delay ≡ b.inter_read_delay)
  unfolding handle_error set_state
  handle_error-later e b = ground (
    arith,
    close_conn-later b,
    clock.ticking (state_set disconnected) (close_conn b).trace,
    clock.ticking (state_set reconnecting) (close_conn b).trace,
  )

  load_aborting-later :
      (b : Broker)
      → (w.now b.trace ≤ w.now (load_aborting w b).trace)
        × ((load_aborting w b).last_read_time ≡ b.last_read_time)
        × ((load_aborting w b).inter_read_delay ≡ b.inter_read_delay)
  unfolding load_aborting
  load_aborting-later b = ground (arith, clock.ticking loaded_abort b.trace)

  enforce-keeps_delay :
      (b : Broker) → (enforce_inter_read_delay w b).inter_read_delay ≡ b.inter_read_delay
  unfolding enforce_inter_read_delay
  enforce-keeps_delay b = ground arith

  exchange_read-keeps_delay :
      (req : ReadRequest) (b : Broker) (c : Conn)
      → (exchange_read w req b c).1.inter_read_delay ≡ b.inter_read_delay
  unfolding exchange_read
  exchange_read-keeps_delay req b c = ground arith

  read_once-stamps :
      (req : ReadRequest) (last_attempt : Bool) (b : Broker) (c : Conn)
      → let ended = w.now (exchange_read w req (enforce_inter_read_delay w b) c).1.trace in
        let b' = (read_once w req last_attempt b c).1 in
        (b'.last_read_time ≡ some ended)
        × (ended ≤ w.now b'.trace)
        × (b'.inter_read_delay ≡ b.inter_read_delay)
  unfolding read_once
  read_once-stamps req last_attempt b c =
      let b1 = (exchange_read w req (enforce_inter_read_delay w b) c).1 in
      let b2 = record b1 { last_read_time = some (w.now b1.trace) } in
      let delay = exchange_read-keeps_delay req (enforce_inter_read_delay w b) c in
      let delay' = enforce-keeps_delay b in
      elim (reply_cases (exchange_read w req (enforce_inter_read_delay w b) c).0) [
        | inl (bytes, e) ↦ ground arith
        | inr (failure, e) ↦
            let handled = handle_error-later failure b2 in
            let loaded = load_aborting-later (handle_error w failure b2) in ground arith
      ]

-- The broker later, with the stamp and the delay that it had.
record Later (w : World) (b b' : Broker) : Type 0 where
  past : w.now b.trace ≤ w.now b'.trace
  stamp : b'.last_read_time ≡ b.last_read_time
  delay : b'.inter_read_delay ≡ b.inter_read_delay

abbrev ReturnsLater : World → Broker → Option (Option BrokerError × Broker) → Type 0
ReturnsLater w b none = Unit
ReturnsLater w b (some r) = Later w b r.1

module _ (w : World) (clock : HasClock w) where
  Later-trans : {b b' b'' : Broker} → Later w b b' → Later w b' b'' → Later w b b''
  Later-trans l l' = record {
    past = ground (arith, l.past, l'.past);
    stamp = l'.stamp ∙ l.stamp;
    delay = l'.delay ∙ l.delay;
  }

  Later-refl : (b : Broker) → Later w b b
  Later-refl b = record { past = omega arith; stamp = refl; delay = refl }

  ReturnsLater-after :
      {b b' : Broker}
      → Later w b b'
      → (r : Option (Option BrokerError × Broker)) → ReturnsLater w b' r
      → ReturnsLater w b r
  ReturnsLater-after l none returns = tt
  ReturnsLater-after l (some r) returns = Later-trans l returns

  set_state-Later :
      (s : State) (e : Option BrokerError) (b : Broker) → Later w b (set_state w s e b)
  unfolding set_state
  set_state-Later s e b = record {
    past = ground (arith, clock.ticking (state_set s) b.trace);
    stamp = ground arith;
    delay = ground arith;
  }

  dialed-Later : (b : Broker) → Later w b (act (dialed b.addr) b)
  dialed-Later b = record {
    past = clock.ticking (dialed b.addr) b.trace;
    stamp = refl;
    delay = refl;
  }

  connect_over-Later : (c : Conn) (b : Broker) → Later w b (connect_over w c b)
  unfolding connect_over
  connect_over-Later c b =
      let b1 = record (act (dialed b.addr) b) { conn = some c; backoff = reset b.backoff } in
      let l = dialed-Later b in
      Later-trans (record { past = l.past; stamp = l.stamp; delay = l.delay })
        (set_state-Later connected none b1)

  wait_after-Later : (e : String) (b : Broker) → Later w b (wait_after w e b)
  unfolding wait_after
  wait_after-Later e b =
      let b1 = set_state w reconnecting (some (dial_error e)) (act (dialed b.addr) b) in
      let (wait, backoff') = next b1.backoff in
      Later-trans
        (Later-trans (dialed-Later b)
          (set_state-Later reconnecting (some (dial_error e)) (act (dialed b.addr) b)))
        (record { past = clock.ticking (waited wait) b1.trace; stamp = refl; delay = refl })

  connect_loop-Later : (rounds : ℕ) (b : Broker) → ReturnsLater w b (connect_loop w rounds b)
  unfolding connect_loop
  connect_loop-Later zero b = tt
  connect_loop-Later (suc rounds) b = elim (Dialed-cases (w.dial b.trace b.addr)) [
    | inl (c, e) ↦ rw (e, connect_loop) (connect_over-Later c b)
    | inr (reason, e) ↦
        let waited_b = wait_after w reason b in
        let waits = wait_after-Later reason b in
        elim (Option-cases (w.cancelled waited_b.trace)) [
          | inl on ↦
              rw (e, connect_loop)
                (rw (on, connect_loop)
                  (ReturnsLater-after waits (connect_loop w rounds waited_b)
                    (connect_loop-Later rounds waited_b)))
          | inr (over, done) ↦
              rw (e, connect_loop)
                (rw (done, connect_loop)
                  (Later-trans waits
                    (set_state-Later disconnected (some (context_error over)) waited_b)))
        ]
  ]

  either-Later :
      (b : Broker) (up : Option Conn) (r r' : Option (Option BrokerError × Broker))
      → ReturnsLater w b r
      → ReturnsLater w b r'
      → ReturnsLater w b (elim up [ some _ ↦ r | none ↦ r' ])
  either-Later b none r r' h h' = h'
  either-Later b (some c) r r' h h' = h

  ensure_connected-Later :
      (rounds : ℕ) (b : Broker) → ReturnsLater w b (ensure_connected w rounds b)
  unfolding ensure_connected
  ensure_connected-Later rounds b =
      let b1 = set_state w connecting none b in
      either-Later b b.conn _ _ (Later-refl b) (
        if_both (ReturnsLater w b) b.dormant (Later-refl b) (
          ReturnsLater-after (set_state-Later connecting none b) (connect_loop w rounds b1)
            (connect_loop-Later rounds b1)))

-- With a clock that does not go back and sleeps that are not cut short: after an attempt to read,
-- whether it succeeds or fails, and after the reconnection that comes before the next attempt,
-- however many dials it takes, the delay of the next one ends no earlier than the inter-read delay
-- after the first's response (or failure) came in.
pub read_once-enforce_inter_read_delay :
    (w : World) (rounds : ℕ) (req : ReadRequest) (last_attempt : Bool) (b : Broker) (c : Conn)
    (e : Option BrokerError) (b'' : Broker)
    → HasClock w
    → ensure_connected w rounds (read_once w req last_attempt b c).1 ≡ some (e, b'')
    → let ended = w.now (exchange_read w req (enforce_inter_read_delay w b) c).1.trace in
      ended + b.inter_read_delay ≤ w.now (enforce_inter_read_delay w b'').trace
read_once-enforce_inter_read_delay w rounds req last_attempt b c e b'' clock connected_again =
    let b' = (read_once w req last_attempt b c).1 in
    let (stamp, past, delay) = read_once-stamps w clock req last_attempt b c in
    let later : Later w b' b'' =
      subst (ReturnsLater w b') connected_again (ensure_connected-Later w clock rounds b') in
    let ended = w.now (exchange_read w req (enforce_inter_read_delay w b) c).1.trace in
    let not_before : ended ≤ w.now b''.trace = ground (arith, past, later.past) in
    let waits = enforce-waits w clock b'' ended (later.stamp ∙ stamp) not_before in
    subst (λ d. ended + d ≤ w.now (enforce_inter_read_delay w b'').trace) (later.delay ∙ delay)
      waits

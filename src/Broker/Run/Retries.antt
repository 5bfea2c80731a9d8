-- ===== src/Broker/Run/Retries.antt =====
-- Which errors end a read of internal/broker/broker.go at once.
use sofar_hyd_diag.Prelude.{
  ℕ, zero, suc, ◌+◌, ◌<◌, ◌≡◌, refl, Bool, true, false, not, ◌==◌, ==_iff, ◌&&◌, some, inl, inr,
  Bool-cases, arith, if◌then◌else◌,
}
use sofar_hyd_diag.Modbus.Conn.{Conn}
use sofar_hyd_diag.Modbus.Error.{exception, err}
use sofar_hyd_diag.Broker.State.{ReadRequest, fails, modbus_error, World, Broker, is_retryable}
use sofar_hyd_diag.Broker.Execute.{ensure_connected, enforce_inter_read_delay, exchange_read}
use sofar_hyd_diag.Broker.Run.{read_once, read_attempts, execute_read}
use sofar_hyd_diag.Broker.Run.Attempts.{reads_sent}
use sofar_hyd_diag.Broker.Run.Link.{has_conn}

-- The codes below n, each tested.
abbrev codes_agree : ℕ → Bool
codes_agree zero = true
codes_agree (suc n) =
    let rest = codes_agree n in
    (if is_retryable (exception 0x83 n) then not (n == 2) else n == 2) && rest

all_codes_agree : codes_agree 256 ≡ true
unfolding is_retryable
all_codes_agree = refl

codes_agree-code :
    (n code : ℕ)
    → codes_agree n ≡ true
    → code < n
    → is_retryable (exception 0x83 code) ≡ not (code == 2)
codes_agree-code zero code h less = elim less [ ]
codes_agree-code (suc n) code h less = elim (Bool-cases (code == n)) [
  | inl last ↦ rw (same last) (ground arith)
  | inr before ↦ codes_agree-code n code (ground arith) (ground (arith, ==_iff code n))
]
  where
    same : code == n ≡ true → code ≡ n
    same last = ground (arith, ==_iff code n)

-- Of the exceptions to a read request (function 0x83, any code that is a byte) just code 0x02, an
-- illegal address, is not tried again.
pub is_retryable-exception :
    (code : ℕ) → code < 256 → is_retryable (exception 0x83 code) ≡ not (code == 2)
is_retryable-exception code h = codes_agree-code 256 code all_codes_agree h

exchange_read-effect :
    (w : World) (req : ReadRequest) (b : Broker) (c : Conn)
    → let b' = (exchange_read w req (enforce_inter_read_delay w b) c).1 in
      (reads_sent b'.trace ≡ reads_sent b.trace + 1) × (has_conn b'.conn ≡ true)
unfolding exchange_read enforce_inter_read_delay
exchange_read-effect w req b c = ground arith

read_once-illegal_address :
    (w : World) (req : ReadRequest) (last_attempt : Bool) (b : Broker) (c : Conn)
    → (exchange_read w req (enforce_inter_read_delay w b) c).0 ≡ err (exception 0x83 0x02)
    → let r = read_once w req last_attempt b c in
      (r.0 ≡ some (fails (modbus_error (exception 0x83 0x02))))
      × (reads_sent r.1.trace ≡ reads_sent b.trace + 1)
      × (has_conn r.1.conn ≡ true)
unfolding read_once
read_once-illegal_address w req last_attempt b c answered =
    let effect = exchange_read-effect w req b c in
    let ends = is_retryable-exception 0x02 (omega arith) in ground arith

-- A read whose request the gateway answers with an illegal address, over a connection that is
-- there, fails with just that, whatever the rounds for reconnections, after one request, and the
-- connection stays.
pub execute_read-illegal_address :
    (w : World) (rounds : ℕ) (req : ReadRequest) (b : Broker) (c : Conn)
    → b.conn ≡ some c
    → (exchange_read w req (enforce_inter_read_delay w b) c).0 ≡ err (exception 0x83 0x02)
    → (b' : Broker) × (execute_read w rounds req b
        ≡ some (fails (modbus_error (exception 0x83 0x02)), b'))
      × (reads_sent b'.trace ≡ reads_sent b.trace + 1)
      × (has_conn b'.conn ≡ true)
unfolding execute_read read_attempts ensure_connected
execute_read-illegal_address w rounds req b c up answered =
    let (done, count, kept) = read_once-illegal_address w req false b c answered in
    ((read_once w req false b c).1, ground arith, count, kept)

-- ===== src/Modbus/Tcp.antt =====
-- internal/modbus/tcp.go: requests and responses with an MBAP header.
pub mod Exchange
use sofar_hyd_diag.Prelude.{
  ℕ, zero, suc, ◌+◌, ◌-◌, ◌*◌, Bool, true, false, not, ◌&&◌, ◌||◌, String, Option, none, some, List,
  [], ◌∷◌, ◌++◌, length, take, drop, get_or, ltb, leb, ◌==◌, if◌then◌else◌, u16,
}
use sofar_hyd_diag.Modbus.Conn.{
  Conn, ReadResult, full, short, read_full, left, put_uint16, uint16_at,
}
use sofar_hyd_diag.Modbus.Rtu.{is_exception, sent}
use sofar_hyd_diag.Modbus.Error.{
  ModbusError, write_failed, exception, read_timeout, read_mbap_failed, invalid_mbap_length,
  read_pdu_failed, pdu_too_short, pdu_data_short, no_matching_response, no_write_response, Reply,
  ok, err,
}

-- `transactionID.Add(1)`, cut to 16 bits.
unfoldable pub next_tx_id : ℕ → ℕ
next_tx_id transaction_id = u16 (transaction_id + 1)

unfoldable pub tcp_read_request : ℕ → ℕ → ℕ → ℕ → List ℕ
tcp_read_request tx_id slave_id start_addr quantity =
    put_uint16 tx_id
    ++ (put_uint16 0
        ++ (put_uint16 6 ++ (slave_id ∷ 0x03 ∷ (put_uint16 start_addr ++ put_uint16 quantity))))

unfoldable pub tcp_write_request : ℕ → ℕ → ℕ → ℕ → List ℕ
tcp_write_request tx_id slave_id reg_addr value =
    put_uint16 tx_id
    ++ (put_uint16 0
        ++ (put_uint16 9
            ++ (slave_id
                ∷ 0x10
                ∷ (put_uint16 reg_addr ++ (put_uint16 1 ++ (2 ∷ put_uint16 value))))))

-- What a PDU with the right transaction says: the checks of `ReadHoldingRegistersTCP`.
unfoldable pub tcp_accept : List ℕ → Reply (List ℕ)
tcp_accept pdu =
    let func = get_or pdu 0 0 in
    let byte_count = get_or pdu 1 0 in
    if is_exception func
    then err (exception func (get_or pdu 1 0))
    else if ltb (length pdu) 2
    then err pdu_too_short
    else if ltb (length pdu) (2 + byte_count)
    then err pdu_data_short
    else ok (take byte_count (drop 2 pdu))

-- The loop over responses. The first argument counts the rounds that begin before the deadline.
unfoldable pub tcp_responses : ℕ → ℕ → Conn → Reply (List ℕ) × Conn
tcp_responses zero tx_id c = (err (no_matching_response tx_id), c)
tcp_responses (suc rounds) tx_id c = elim (read_full 7 c) [
  | short got e ↦ (err (read_timeout e), left [] c)
  | full mbap rest ↦
      let resp_len = uint16_at mbap 4 in
      if ltb resp_len 2 || ltb 260 resp_len
      then (err (invalid_mbap_length resp_len), left rest c)
      else elim (read_full (resp_len - 1) (left rest c)) [
        | short got e ↦ (err (read_pdu_failed e), left [] c)
        | full pdu rest' ↦ elim (uint16_at mbap 0 == tx_id) [
          | false ↦ tcp_responses rounds tx_id (left rest' c)
          | true ↦ (tcp_accept pdu, left rest' c)
        ]
      ]
]

unfoldable pub read_holding_registers_tcp : ℕ → ℕ → ℕ → ℕ → ℕ → Conn → Reply (List ℕ) × Conn
read_holding_registers_tcp rounds tx_id slave_id start_addr quantity c = elim c.write_error [
  | some e ↦ (err (write_failed e), c)
  | none ↦ tcp_responses rounds tx_id (sent (tcp_read_request tx_id slave_id start_addr quantity) c)
]

unfoldable pub tcp_write_accept : List ℕ → Reply (Unit {0})
tcp_write_accept pdu =
    if ltb 0 (length pdu) && is_exception (get_or pdu 0 0)
    then err (exception (get_or pdu 0 0) (get_or pdu 1 0))
    else ok tt

unfoldable pub tcp_write_responses : ℕ → ℕ → Conn → Reply (Unit {0}) × Conn
tcp_write_responses zero tx_id c = (err (no_write_response tx_id), c)
tcp_write_responses (suc rounds) tx_id c = elim (read_full 7 c) [
  | short got e ↦ (err (read_mbap_failed e), left [] c)
  | full mbap rest ↦
      let resp_len = uint16_at mbap 4 in
      if ltb resp_len 1 || ltb 260 resp_len
      then (err (invalid_mbap_length resp_len), left rest c)
      else elim (read_full (resp_len - 1) (left rest c)) [
        | short got e ↦ (err (read_pdu_failed e), left [] c)
        | full pdu rest' ↦ elim (uint16_at mbap 0 == tx_id) [
          | false ↦ tcp_write_responses rounds tx_id (left rest' c)
          | true ↦ (tcp_write_accept pdu, left rest' c)
        ]
      ]
]

unfoldable pub write_multiple_registers_tcp : ℕ → ℕ → ℕ → ℕ → ℕ → Conn → Reply (Unit {0}) × Conn
write_multiple_registers_tcp rounds tx_id slave_id reg_addr value c = elim c.write_error [
  | some e ↦ (err (write_failed e), c)
  | none ↦
      tcp_write_responses rounds tx_id (sent (tcp_write_request tx_id slave_id reg_addr value) c)
]

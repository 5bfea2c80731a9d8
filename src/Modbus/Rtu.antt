-- ===== src/Modbus/Rtu.antt =====
-- internal/modbus/rtu.go: requests and responses with a CRC.
pub mod Exchange
use sofar_hyd_diag.Prelude.{
  ℕ, zero, suc, ◌+◌, ◌-◌, ◌*◌, ◌/◌, ◌%◌, ◌≤◌, ◌<◌, Bool, not, String, Option, none, some, List, [],
  ◌∷◌, ◌++◌, length, take, get_or, leb, ◌==◌, if◌then◌else◌,
}
use sofar_hyd_diag.Modbus.Crc.{crc16, crc_bytes}
use sofar_hyd_diag.Modbus.Conn.{Conn, ReadResult, full, short, read_full, left, put_uint16}
use sofar_hyd_diag.Modbus.Error.{
  ModbusError, write_failed, read_header_failed, read_payload_failed, read_response_failed,
  error_code_unread, exception, wrong_slave, crc_mismatch, Reply, ok, err,
}

-- The six bytes of a request, and its CRC behind them.
unfoldable pub rtu_frame : List ℕ → List ℕ
rtu_frame req = req ++ crc_bytes (crc16 req)

unfoldable pub rtu_read_request : ℕ → ℕ → ℕ → List ℕ
rtu_read_request slave_id start_addr quantity =
    rtu_frame (slave_id ∷ 0x03 ∷ (put_uint16 start_addr ++ put_uint16 quantity))

unfoldable pub rtu_write_request : ℕ → ℕ → ℕ → List ℕ
rtu_write_request slave_id reg_addr value =
    rtu_frame (slave_id ∷ 0x06 ∷ (put_uint16 reg_addr ++ put_uint16 value))

-- `b & 0x80 != 0` of a byte.
abbrev pub is_exception : ℕ → Bool
is_exception func = leb 128 (func % 256)

abbrev pub sent : List ℕ → Conn → Conn
sent req c = record c { written = req ∷ c.written }

-- The checks on the payload and its CRC, once they are read.
unfoldable pub rtu_accept : List ℕ → List ℕ → ℕ → Reply (List ℕ)
rtu_accept header payload byte_count =
    let full_resp = header ++ payload in
    let resp_data = take (length full_resp - 2) full_resp in
    let resp_crc =
      get_or full_resp (length full_resp - 2) 0 + get_or full_resp (length full_resp - 1) 0 * 256 in
    let calc_crc = crc16 resp_data in
    if resp_crc == calc_crc
    then ok (take byte_count payload)
    else err (crc_mismatch resp_crc calc_crc)

-- After the three bytes of the header. The error code of an exception is not CRC-checked.
unfoldable pub rtu_body : ℕ → List ℕ → Conn → Reply (List ℕ) × Conn
rtu_body slave_id header c =
    let func = get_or header 1 0 in
    let byte_count = get_or header 2 0 in
    if is_exception func
    then (elim (read_full 3 c) [
      | full err_buf rest ↦ (err (exception func (get_or err_buf 0 0)), left rest c)
      | short got e ↦ (err (error_code_unread func e), left [] c)
    ])
    else if not (get_or header 0 0 == slave_id)
    then (err (wrong_slave (get_or header 0 0) slave_id), c)
    else elim (read_full (byte_count + 2) c) [
      | full payload rest ↦ (rtu_accept header payload byte_count, left rest c)
      | short got e ↦ (err (read_payload_failed (length got) (byte_count + 2) e), left [] c)
    ]

unfoldable pub read_holding_registers_rtu : ℕ → ℕ → ℕ → Conn → Reply (List ℕ) × Conn
read_holding_registers_rtu slave_id start_addr quantity c =
    let c' = sent (rtu_read_request slave_id start_addr quantity) c in
    elim c.write_error [
      | some e ↦ (err (write_failed e), c)
      | none ↦ elim (read_full 3 c') [
        | full header rest ↦ rtu_body slave_id header (left rest c')
        | short got e ↦ (err (read_header_failed (length got) e), left [] c')
      ]
    ]

unfoldable pub write_single_register_rtu : ℕ → ℕ → ℕ → Conn → Reply (Unit {0}) × Conn
write_single_register_rtu slave_id reg_addr value c =
    let c' = sent (rtu_write_request slave_id reg_addr value) c in
    elim c.write_error [
      | some e ↦ (err (write_failed e), c)
      | none ↦ elim (read_full 8 c') [
        | full resp rest ↦ (
          if is_exception (get_or resp 1 0)
              then err (exception (get_or resp 1 0) (get_or resp 2 0))
              else ok tt,
          left rest c',
        )
        | short got e ↦ (err (read_response_failed e), left [] c')
      ]
    ]

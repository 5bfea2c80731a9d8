-- ===== src/Modbus/Examples.antt =====
-- The theorems on the two protocols, at frames of an inverter with address 1.
use sofar_hyd_diag.Prelude.{ℕ, ◌≡◌, refl, none, List, [], ◌∷◌, ◌++◌, arith}
use sofar_hyd_diag.Modbus.Conn.{Conn, bytes_of}
use sofar_hyd_diag.Modbus.Crc.{
  crc16, crc_bytes, crc_from, crc_byte, crc_bits, crc_bit, crc16-residue,
}
use sofar_hyd_diag.Modbus.Error.{exception, error_code_unread, read_response_failed, ok, err}
use sofar_hyd_diag.Modbus.Rtu.{rtu_frame, read_holding_registers_rtu, write_single_register_rtu}
use sofar_hyd_diag.Modbus.Rtu.Exchange.{
  read_holding_registers_rtu-response, read_holding_registers_rtu-exception,
  write_single_register_rtu-exception,
}
use sofar_hyd_diag.Modbus.Tcp.{read_holding_registers_tcp}
use sofar_hyd_diag.Modbus.Tcp.Exchange.{
  TcpFrame, encode, read_pdu, read_holding_registers_tcp-response,
  read_holding_registers_tcp-exception,
}

abbrev conn_with : List (List ℕ) → Conn
conn_with chunks = record {
  incoming = chunks;
  read_error = "i/o timeout";
  write_error = none;
  written = [];
}

abbrev stale_frame : TcpFrame
stale_frame = record { tx_id = 6; unit_id = 1; pdu = 0x83 ∷ 4 ∷ [] }

abbrev own_frame : TcpFrame
own_frame = record { tx_id = 7; unit_id = 1; pdu = read_pdu (0x12 ∷ 0x34 ∷ []) }

-- A late exception of the request before, and then the response, in two chunks.
abbrev tcp_conn : Conn
tcp_conn =
    conn_with (
      (encode stale_frame ++ (0 ∷ []))
      ∷ (7 ∷ 0 ∷ 0 ∷ 0 ∷ 5 ∷ 1 ∷ 3 ∷ 2 ∷ 0x12 ∷ 0x34 ∷ 9 ∷ [])
      ∷ [])

read_holding_registers_tcp-response_example :
    let result = read_holding_registers_tcp 4 7 1 0x0404 1 tcp_conn in
    (result.0 ≡ ok (0x12 ∷ 0x34 ∷ [])) × (bytes_of result.1.incoming ≡ 9 ∷ [])
read_holding_registers_tcp-response_example =
    read_holding_registers_tcp-response 2 7 1 1 0x0404 1 tcp_conn (stale_frame ∷ [])
      (0x12 ∷ 0x34 ∷ []) (9 ∷ []) refl
      ((record { some_pdu = omega arith; pdu_limit = omega arith }, omega arith), tt) (omega arith)
      refl

abbrev tcp_exception_conn : Conn
tcp_exception_conn =
    conn_with ((encode stale_frame ++ (0 ∷ [])) ∷ (7 ∷ 0 ∷ 0 ∷ 0 ∷ 3 ∷ 1 ∷ 0x83 ∷ 2 ∷ []) ∷ [])

read_holding_registers_tcp-exception_example :
    let result = read_holding_registers_tcp 4 7 1 0x0404 1 tcp_exception_conn in
    (result.0 ≡ err (exception 0x83 2)) × (bytes_of result.1.incoming ≡ [])
read_holding_registers_tcp-exception_example =
    read_holding_registers_tcp-exception 2 7 1 1 0x0404 1 0x83 2 tcp_exception_conn
      (stale_frame ∷ []) [] refl
      ((record { some_pdu = omega arith; pdu_limit = omega arith }, omega arith), tt) (omega arith)
      (omega arith) refl

-- The CRC of 01 03 02 12 34 is B5 33.
abbrev rtu_conn : Conn
rtu_conn = conn_with ((1 ∷ 3 ∷ []) ∷ (2 ∷ 0x12 ∷ 0x34 ∷ 0xB5 ∷ 0x33 ∷ []) ∷ [])

read_holding_registers_rtu-response_example :
    let result = read_holding_registers_rtu 1 0x0404 1 rtu_conn in
    (result.0 ≡ ok (0x12 ∷ 0x34 ∷ [])) × (bytes_of result.1.incoming ≡ [])
unfolding rtu_frame crc16 crc_from crc_byte crc_bits crc_bit
read_holding_registers_rtu-response_example =
    read_holding_registers_rtu-response 1 0x0404 1 rtu_conn (0x12 ∷ 0x34 ∷ []) [] refl refl

abbrev exception_conn : Conn
exception_conn = conn_with ((0x01 ∷ 0x83 ∷ []) ∷ (0x02 ∷ 0xC0 ∷ 0xF1 ∷ []) ∷ [])

read_holding_registers_rtu-exception_example :
    (read_holding_registers_rtu 1 0x0404 1 exception_conn).0
    ≡ err (error_code_unread 0x83 "i/o timeout")
unfolding rtu_frame crc16 crc_from crc_byte crc_bits crc_bit
read_holding_registers_rtu-exception_example =
    read_holding_registers_rtu-exception 1 0x0404 1 0x83 0x02 exception_conn refl (omega arith)
      (omega arith) refl

abbrev write_exception_conn : Conn
write_exception_conn = conn_with ((0x01 ∷ 0x86 ∷ 0x02 ∷ []) ∷ (0xC3 ∷ 0xA1 ∷ []) ∷ [])

write_single_register_rtu-exception_example :
    (write_single_register_rtu 1 0x9020 1 write_exception_conn).0
    ≡ err (read_response_failed "i/o timeout")
unfolding rtu_frame crc16 crc_from crc_byte crc_bits crc_bit
write_single_register_rtu-exception_example =
    write_single_register_rtu-exception 1 0x9020 1 0x86 0x02 write_exception_conn refl refl

crc16-residue_example : crc16 ((1 ∷ 3 ∷ 0 ∷ 0 ∷ []) ++ crc_bytes (crc16 (1 ∷ 3 ∷ 0 ∷ 0 ∷ []))) ≡ 0
crc16-residue_example =
    crc16-residue (1 ∷ 3 ∷ 0 ∷ 0 ∷ [])
      (omega arith, (omega arith, (omega arith, (omega arith, tt))))

-- ===== src/Modbus/Rtu/Exchange.antt =====
-- What internal/modbus/rtu.go makes of the frames that a slave sends.
use mathlib.Core.List.{append_assoc}
use sofar_hyd_diag.Prelude.{
  ℕ, ◌+◌, ◌-◌, ◌*◌, ◌/◌, ◌%◌, ◌≤◌, ◌<◌, ◌≡◌, refl, sym, ap, ◌∙◌, true, none, List, [], ◌∷◌, ◌++◌,
  length, take, get_or, ==-self, arith, take-length-append, get_or-length-append, length-append,
}
use sofar_hyd_diag.Modbus.Crc.{crc16, crc_bytes}
use sofar_hyd_diag.Modbus.Conn.{
  Conn, full, read_full, left, bytes_of, read_full-full, read_full-short,
}
use sofar_hyd_diag.Modbus.Error.{error_code_unread, read_response_failed, ok, err}
use sofar_hyd_diag.Modbus.Rtu.{
  is_exception, sent, rtu_frame, rtu_accept, rtu_body, rtu_read_request, rtu_write_request,
  read_holding_registers_rtu, write_single_register_rtu,
}

-- The parts of a body with its checksum behind it.
module _ (body : List ℕ) where
  checked : List ℕ
  checked = body ++ crc_bytes (crc16 body)

  checked-length : length checked ≡ length body + 2
  unfolding checked
  checked-length = length-append body (crc_bytes (crc16 body))

  checked_front : take (length checked - 2) checked ≡ body
  checked_front = rw (before) (unfold checked in take-length-append body (crc_bytes (crc16 body)))
    where
      before : length checked - 2 ≡ length body
      before = omega (arith, checked-length)

  checked_crc :
      get_or checked (length checked - 2) 0 + get_or checked (length checked - 1) 0 * 256
      ≡ crc16 body
  checked_crc = rw (low_at, high_at) (unfold checked in omega (arith, low_byte, high_byte))
    where
      low_at : length checked - 2 ≡ length body + 0
      low_at = omega (arith, checked-length)

      high_at : length checked - 1 ≡ length body + 1
      high_at = omega (arith, checked-length)

      low_byte : get_or (body ++ crc_bytes (crc16 body)) (length body + 0) 0 ≡ crc16 body % 256
      low_byte = get_or-length-append body (crc_bytes (crc16 body)) 0 0

      high_byte : get_or (body ++ crc_bytes (crc16 body)) (length body + 1) 0 ≡ crc16 body / 256
      high_byte = get_or-length-append body (crc_bytes (crc16 body)) 1 0

-- A response body with its checksum, as the slave sends it, passes the check.
rtu_accept-crc :
    (header bytes : List ℕ)
    → rtu_accept header (bytes ++ crc_bytes (crc16 (header ++ bytes))) (length bytes) ≡ ok bytes
unfolding rtu_accept
rtu_accept-crc header bytes =
    rw
      (
        whole,
        checked_front (header ++ bytes),
        checked_crc (header ++ bytes),
        ==-self (crc16 (header ++ bytes)),
      )
      (ap ok (take-length-append bytes (crc_bytes (crc16 (header ++ bytes)))))
  where
    whole : header ++ (bytes ++ crc_bytes (crc16 (header ++ bytes))) ≡ checked (header ++ bytes)
    whole = unfold checked in sym (append_assoc header bytes (crc_bytes (crc16 (header ++ bytes))))

read_rtu-sent :
    (slave_id start_addr quantity : ℕ) (c : Conn) (header : List ℕ) (rest : List (List ℕ))
    → c.write_error ≡ none
    → read_full 3 (sent (rtu_read_request slave_id start_addr quantity) c) ≡ full header rest
    → read_holding_registers_rtu slave_id start_addr quantity c
      ≡ rtu_body slave_id header
          (left rest (sent (rtu_read_request slave_id start_addr quantity) c))
unfolding read_holding_registers_rtu
read_rtu-sent slave_id start_addr quantity c header rest w e = ground arith

rtu_body-read :
    (slave_id byte_count : ℕ) (c : Conn) (payload : List ℕ) (rest : List (List ℕ))
    → read_full (byte_count + 2) c ≡ full payload rest
    → rtu_body slave_id (slave_id ∷ 0x03 ∷ byte_count ∷ []) c
      ≡ (rtu_accept (slave_id ∷ 0x03 ∷ byte_count ∷ []) payload byte_count, left rest c)
unfolding rtu_body
rtu_body-read slave_id byte_count c payload rest e = rw (==-self slave_id, e, rtu_body)

rtu_body-payload :
    (slave_id : ℕ) (c : Conn) (bytes after : List ℕ)
    → bytes_of c.incoming
      ≡ (bytes ++ crc_bytes (crc16 (slave_id ∷ 0x03 ∷ length bytes ∷ bytes))) ++ after
    → (rest : List (List ℕ)) × (rtu_body slave_id (slave_id ∷ 0x03 ∷ length bytes ∷ []) c
        ≡ (ok bytes, left rest c))
      × (bytes_of rest ≡ after)
rtu_body-payload slave_id c bytes after h =
    let crc = crc_bytes (crc16 (slave_id ∷ 0x03 ∷ length bytes ∷ bytes)) in
    let (rest, e, b) = read_full-full c (bytes ++ crc) after h in
    (
      rest,
      rtu_body-read slave_id (length bytes) c (bytes ++ crc) rest
            (rw (length-append bytes crc) at e)
          ∙ rw (rtu_accept-crc (slave_id ∷ 0x03 ∷ length bytes ∷ []) bytes),
      b,
    )

rtu_body-exception :
    (slave_id func code : ℕ) (c : Conn)
    → 128 ≤ func
    → func < 256
    → length (bytes_of c.incoming) ≡ 2
    → (rtu_body slave_id (slave_id ∷ func ∷ code ∷ []) c).0
      ≡ err (error_code_unread func c.read_error)
unfolding rtu_body
rtu_body-exception slave_id func code c lo hi h =
    rw (top_bit, read_full-short 3 c (omega (arith, h)), rtu_body)
  where
    top_bit : is_exception func ≡ true
    top_bit = ground arith

-- A read whose request is sent returns exactly the data of the slave's response with a right CRC,
-- however the stream is cut into chunks, and leaves unread what follows it.
pub read_holding_registers_rtu-response :
    (slave_id start_addr quantity : ℕ) (c : Conn) (bytes after : List ℕ)
    → c.write_error ≡ none
    → bytes_of c.incoming ≡ rtu_frame (slave_id ∷ 0x03 ∷ length bytes ∷ bytes) ++ after
    → let result = read_holding_registers_rtu slave_id start_addr quantity c in
      (result.0 ≡ ok bytes) × (bytes_of result.1.incoming ≡ after)
read_holding_registers_rtu-response slave_id start_addr quantity c bytes after w h =
    let c' = sent (rtu_read_request slave_id start_addr quantity) c in
    let header : List ℕ = slave_id ∷ 0x03 ∷ length bytes ∷ [] in
    let body = bytes ++ crc_bytes (crc16 (header ++ bytes)) in
    let (rest, e, b) = read_full-full c' header (body ++ after) (unfold rtu_frame in h) in
    let (rest', e', b') = rtu_body-payload slave_id (left rest c') bytes after b in
    rw (read_rtu-sent slave_id start_addr quantity c header rest w e, e') (refl, b')

-- The exception frame of the Modbus protocol: address, function with the top bit, code, CRC.
abbrev pub exception_frame : ℕ → ℕ → ℕ → List ℕ
exception_frame slave_id func code = rtu_frame (slave_id ∷ func ∷ code ∷ [])

-- A read never reports the code of an exception that the slave sends: where the request is sent and
-- the frame's five bytes are all that comes, three are taken for the header, and the read of three
-- more for the code fails, whatever the code is.
pub read_holding_registers_rtu-exception :
    (slave_id start_addr quantity func code : ℕ) (c : Conn)
    → c.write_error ≡ none
    → 128 ≤ func
    → func < 256
    → bytes_of c.incoming ≡ exception_frame slave_id func code
    → (read_holding_registers_rtu slave_id start_addr quantity c).0
      ≡ err (error_code_unread func c.read_error)
unfolding rtu_frame
read_holding_registers_rtu-exception slave_id start_addr quantity func code c w lo hi h =
    let c' = sent (rtu_read_request slave_id start_addr quantity) c in
    let header : List ℕ = slave_id ∷ func ∷ code ∷ [] in
    let (rest, e, b) = read_full-full c' header (crc_bytes (crc16 header)) h in
    rw (read_rtu-sent slave_id start_addr quantity c header rest w e)
      (rtu_body-exception slave_id func code (left rest c') lo hi (omega (arith, ap length b)))

-- A write never reports the code of an exception that the slave sends either: where the request is
-- sent and the frame's five bytes are all that comes, the read of eight bytes fails.
pub write_single_register_rtu-exception :
    (slave_id reg_addr value func code : ℕ) (c : Conn)
    → c.write_error ≡ none
    → bytes_of c.incoming ≡ exception_frame slave_id func code
    → (write_single_register_rtu slave_id reg_addr value c).0
      ≡ err (read_response_failed c.read_error)
unfolding rtu_frame write_single_register_rtu
write_single_register_rtu-exception slave_id reg_addr value func code c w h =
    let c' = sent (rtu_write_request slave_id reg_addr value) c in
    rw (w, read_full-short 8 c' (omega (arith, ap length h)), write_single_register_rtu)

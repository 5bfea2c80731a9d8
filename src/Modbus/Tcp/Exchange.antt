-- ===== src/Modbus/Tcp/Exchange.antt =====
-- What internal/modbus/tcp.go makes of the frames that a gateway sends.
use mathlib.Core.List.{append_assoc}
use sofar_hyd_diag.Prelude.{
  ℕ, suc, ◌+◌, ◌-◌, ◌/◌, ◌%◌, ◌≤◌, ◌<◌, ◌≡◌, ◌≢◌, refl, zero-add, suc-add, take-length, ◌∙◌, true,
  false, none, List, [], ◌∷◌, ◌++◌, length, ltb, ◌==◌, ==-self, ◌||◌, All, arith,
}
use sofar_hyd_diag.Modbus.Conn.{Conn, full, read_full, left, bytes_of, uint16_at, read_full-full}
use sofar_hyd_diag.Modbus.Error.{exception, ok, err}
use sofar_hyd_diag.Modbus.Rtu.{sent}
use sofar_hyd_diag.Modbus.Tcp.{
  tcp_accept, tcp_responses, tcp_read_request, read_holding_registers_tcp,
}

-- A frame as a gateway sends it: transaction, unit and PDU.
pub record TcpFrame : Type 0 where
  pub tx_id : ℕ
  pub unit_id : ℕ
  pub pdu : List ℕ

abbrev pub encode : TcpFrame → List ℕ
encode f =
    f.tx_id / 256
    ∷ f.tx_id % 256
    ∷ 0
    ∷ 0
    ∷ suc (length f.pdu) / 256
    ∷ suc (length f.pdu) % 256
    ∷ f.unit_id
    ∷ f.pdu

abbrev pub encode_all : List TcpFrame → List ℕ
encode_all [] = []
encode_all (f ∷ fs) = encode f ++ encode_all fs

-- The length field of a frame that the client takes is from 2 to 260.
pub record IsFrame (f : TcpFrame) : Type 0 where
  pub some_pdu : 1 ≤ length f.pdu
  pub pdu_limit : length f.pdu ≤ 259

-- A response to another request.
abbrev pub IsStale : ℕ → TcpFrame → Type 0
IsStale tx_id f = IsFrame f × (f.tx_id ≢ tx_id)

round_with :
    (rounds tx_id : ℕ) (c : Conn) (mbap pdu : List ℕ) (rest rest' : List (List ℕ))
    → read_full 7 c ≡ full mbap rest
    → (ltb (uint16_at mbap 4) 2 || ltb 260 (uint16_at mbap 4)) ≡ false
    → read_full (uint16_at mbap 4 - 1) (left rest c) ≡ full pdu rest'
    → tcp_responses (suc rounds) tx_id c ≡ (elim (uint16_at mbap 0 == tx_id) [
      | false ↦ tcp_responses rounds tx_id (left rest' c)
      | true ↦ (tcp_accept pdu, left rest' c)
    ])
unfolding tcp_responses
round_with rounds tx_id c mbap pdu rest rest' e limits e' = rw (e, limits, e', tcp_responses)

abbrev header : TcpFrame → List ℕ
header f =
    f.tx_id / 256
    ∷ f.tx_id % 256
    ∷ 0
    ∷ 0
    ∷ suc (length f.pdu) / 256
    ∷ suc (length f.pdu) % 256
    ∷ f.unit_id
    ∷ []

header-limits :
    (f : TcpFrame)
    → IsFrame f
    → (ltb (uint16_at (header f) 4) 2 || ltb 260 (uint16_at (header f) 4)) ≡ false
header-limits f ok_frame = ground (arith, ok_frame.some_pdu, ok_frame.pdu_limit)

header-length : (f : TcpFrame) → uint16_at (header f) 4 - 1 ≡ length f.pdu
header-length f = omega arith

header-tx_id : (f : TcpFrame) → uint16_at (header f) 0 ≡ f.tx_id
header-tx_id f = omega arith

-- One round of the loop takes one frame off the stream.
tcp_round :
    (rounds tx_id : ℕ) (c : Conn) (f : TcpFrame) (after : List ℕ)
    → IsFrame f
    → bytes_of c.incoming ≡ encode f ++ after
    → (rest : List (List ℕ)) × (bytes_of rest ≡ after)
      × (tcp_responses (suc rounds) tx_id c ≡ (elim (f.tx_id == tx_id) [
        | false ↦ tcp_responses rounds tx_id (left rest c)
        | true ↦ (tcp_accept f.pdu, left rest c)
      ]))
tcp_round rounds tx_id c f after ok_frame h =
    let (rest, e, b) = read_full-full c (header f) (f.pdu ++ after) h in
    let (rest', e', b') = read_full-full (left rest c) f.pdu after b in
    (
      rest',
      b',
      rw (header-tx_id f) at (
          round_with rounds tx_id c (header f) f.pdu rest rest' e (header-limits f ok_frame)
            (rw (header-length f) e')),
    )

-- Frames of other transactions are skipped, one round each.
tcp_responses-stale :
    (stale : List TcpFrame) (rounds tx_id : ℕ) (c : Conn) (after : List ℕ)
    → All (IsStale tx_id) stale
    → bytes_of c.incoming ≡ encode_all stale ++ after
    → (rest : List (List ℕ)) × (bytes_of rest ≡ after)
      × (tcp_responses (length stale + rounds) tx_id c ≡ tcp_responses rounds tx_id (left rest c))
tcp_responses-stale [] rounds tx_id c after all h = (c.incoming, h, rw zero-add)
tcp_responses-stale (f ∷ fs) rounds tx_id c after all h =
    let (rest, b, e) =
      tcp_round (length fs + rounds) tx_id c f (encode_all fs ++ after) all.0.0
        (h ∙ append_assoc (encode f) (encode_all fs) after) in
    let (rest', b', e') = tcp_responses-stale fs rounds tx_id (left rest c) after all.1 b in
    (rest', b', rw (suc-add, e, other) e')
  where
    other : (f.tx_id == tx_id) ≡ false
    other = ground (arith, all.0.1)

-- The PDU of a response to a read: function 0x03, byte count and data.
abbrev pub read_pdu : List ℕ → List ℕ
read_pdu data_bytes = 0x03 ∷ length data_bytes ∷ data_bytes

tcp_accept-read_pdu : (bytes : List ℕ) → tcp_accept (read_pdu bytes) ≡ ok bytes
unfolding tcp_accept
tcp_accept-read_pdu bytes = ground (arith, take-length bytes)

own_response :
    (rounds tx_id unit_id : ℕ) (c : Conn) (bytes after : List ℕ)
    → length bytes ≤ 255
    → bytes_of c.incoming
      ≡ encode (record { tx_id = tx_id; unit_id = unit_id; pdu = read_pdu bytes }) ++ after
    → (rest : List (List ℕ)) × (bytes_of rest ≡ after)
      × (tcp_responses (suc rounds) tx_id c ≡ (ok bytes, left rest c))
own_response rounds tx_id unit_id c bytes after len h =
    let frame : TcpFrame = record { tx_id = tx_id; unit_id = unit_id; pdu = read_pdu bytes } in
    let fits : IsFrame frame = record { some_pdu = omega arith; pdu_limit = omega arith } in
    let (rest, b, e) = tcp_round rounds tx_id c frame after fits h in
    (rest, b, rw (==-self tx_id, tcp_accept-read_pdu bytes) at e)

read_tcp-sent :
    (rounds tx_id slave_id start_addr quantity : ℕ) (c : Conn)
    → c.write_error ≡ none
    → read_holding_registers_tcp rounds tx_id slave_id start_addr quantity c
      ≡ tcp_responses rounds tx_id (sent (tcp_read_request tx_id slave_id start_addr quantity) c)
unfolding read_holding_registers_tcp
read_tcp-sent rounds tx_id slave_id start_addr quantity c w = rw w

-- A read whose request is sent returns exactly the data (at most 255 bytes) of the response with
-- its transaction id, however the stream is
-- cut into chunks and however many well-formed responses to other requests stand before it, as
-- long as the deadline leaves a round for each; it leaves unread what follows the response.
pub read_holding_registers_tcp-response :
    (rounds tx_id slave_id unit_id start_addr quantity : ℕ) (c : Conn) (stale : List TcpFrame)
    (bytes after : List ℕ)
    → c.write_error ≡ none
    → All (IsStale tx_id) stale
    → length bytes ≤ 255
    → bytes_of c.incoming
      ≡ encode_all stale
        ++ (encode (record { tx_id = tx_id; unit_id = unit_id; pdu = read_pdu bytes }) ++ after)
    → let result =
        read_holding_registers_tcp
          (length stale + suc rounds)
          tx_id
          slave_id
          start_addr
          quantity
          c in
      (result.0 ≡ ok bytes) × (bytes_of result.1.incoming ≡ after)
read_holding_registers_tcp-response rounds tx_id slave_id unit_id start_addr quantity c stale bytes
      after w all len h =
    let c' = sent (tcp_read_request tx_id slave_id start_addr quantity) c in
    let (rest, b, e) = tcp_responses-stale stale (suc rounds) tx_id c' _ all h in
    let (rest', b', e') = own_response rounds tx_id unit_id (left rest c') bytes after len b in
    rw (read_tcp-sent (length stale + suc rounds) tx_id slave_id start_addr quantity c w, e, e')
      (refl, b')

tcp_accept-exception :
    (func code : ℕ)
    → 128 ≤ func
    → func < 256
    → tcp_accept (func ∷ code ∷ []) ≡ err (exception func code)
unfolding tcp_accept
tcp_accept-exception func code lo hi = ground arith

-- A read whose request is sent reports the function and the code of an exception with its
-- transaction id, however the stream is cut into chunks and however many well-formed responses to
-- other requests stand before it, as long as the deadline leaves a round for each.
pub read_holding_registers_tcp-exception :
    (rounds tx_id slave_id unit_id start_addr quantity func code : ℕ) (c : Conn)
    (stale : List TcpFrame) (after : List ℕ)
    → c.write_error ≡ none
    → All (IsStale tx_id) stale
    → 128 ≤ func
    → func < 256
    → bytes_of c.incoming
      ≡ encode_all stale
        ++ (encode (record { tx_id = tx_id; unit_id = unit_id; pdu = func ∷ code ∷ [] }) ++ after)
    → let result =
        read_holding_registers_tcp
          (length stale + suc rounds)
          tx_id
          slave_id
          start_addr
          quantity
          c in
      (result.0 ≡ err (exception func code)) × (bytes_of result.1.incoming ≡ after)
read_holding_registers_tcp-exception rounds tx_id slave_id unit_id start_addr quantity func code c
      stale after w all lo hi h =
    let c' = sent (tcp_read_request tx_id slave_id start_addr quantity) c in
    let frame : TcpFrame = record { tx_id = tx_id; unit_id = unit_id; pdu = func ∷ code ∷ [] } in
    let fits : IsFrame frame = record { some_pdu = omega arith; pdu_limit = omega arith } in
    let (rest, b, e) = tcp_responses-stale stale (suc rounds) tx_id c' _ all h in
    let (rest', b', e') = tcp_round rounds tx_id (left rest c') frame after fits b in
    rw
      (
        read_tcp-sent (length stale + suc rounds) tx_id slave_id start_addr quantity c w,
        e,
        rw (==-self tx_id, tcp_accept-exception func code lo hi) at e',
      )
      (refl, b')

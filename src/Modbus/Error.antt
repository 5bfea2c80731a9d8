-- ===== src/Modbus/Error.antt =====
-- The errors of internal/modbus, and their texts as far as the broker reads them.
use sofar_hyd_diag.Prelude.{ℕ, ◌/◌, ◌%◌, String, List, [], ◌∷◌, get_or, decimal, str_append}

-- One constructor for each fmt.Errorf; an error that it wraps is given by its text.
pub data ModbusError : Type 0 where
  write_failed : String → ModbusError
  read_header_failed : ℕ → String → ModbusError
  read_payload_failed : ℕ → ℕ → String → ModbusError
  read_response_failed : String → ModbusError
  error_code_unread : ℕ → String → ModbusError
  exception : ℕ → ℕ → ModbusError
  wrong_slave : ℕ → ℕ → ModbusError
  crc_mismatch : ℕ → ℕ → ModbusError
  read_timeout : String → ModbusError
  read_mbap_failed : String → ModbusError
  invalid_mbap_length : ℕ → ModbusError
  read_pdu_failed : String → ModbusError
  pdu_too_short pdu_data_short : ModbusError
  no_matching_response no_write_response : ℕ → ModbusError

abbrev hex_digits : List String
hex_digits =
    "0" ∷ "1" ∷ "2" ∷ "3" ∷ "4" ∷ "5" ∷ "6" ∷ "7" ∷ "8" ∷ "9" ∷ "A" ∷ "B" ∷ "C" ∷ "D" ∷ "E" ∷ "F"
    ∷ []

-- `0x%02X` of a byte, and `0x%04X` of a uint16.
unfoldable pub hex2 : ℕ → String
hex2 v =
    str_append "0x" (str_append (get_or hex_digits (v / 16) "") (get_or hex_digits (v % 16) ""))

unfoldable pub hex4 : ℕ → String
unfolding hex2
hex4 v =
    str_append (hex2 (v / 256))
      (str_append (get_or hex_digits (v / 16 % 16) "") (get_or hex_digits (v % 16) ""))

-- `err.Error()`.
unfoldable pub error_text : ModbusError → String
unfolding hex2 hex4 decimal
error_text (write_failed e) = str_append "write: " e
error_text (read_header_failed n e) =
    str_append "read header (got " (str_append (decimal n) (str_append "): " e))
error_text (read_payload_failed n want e) =
    str_append "read payload (got "
      (str_append (decimal n) (str_append "/" (str_append (decimal want) (str_append "): " e))))
error_text (read_response_failed e) = str_append "read response: " e
error_text (error_code_unread func e) =
    str_append "exception (could not read error code): func="
      (str_append (hex2 func) (str_append " read_err=" e))
error_text (exception func code) =
    str_append "exception: func=" (str_append (hex2 func) (str_append " err=" (hex2 code)))
error_text (wrong_slave got want) =
    str_append "wrong slave: got " (str_append (hex2 got) (str_append " want " (hex2 want)))
error_text (crc_mismatch got want) =
    str_append "CRC mismatch: got=" (str_append (hex4 got) (str_append " want=" (hex4 want)))
error_text (read_timeout e) = str_append "timeout: " e
error_text (read_mbap_failed e) = str_append "read MBAP: " e
error_text (invalid_mbap_length n) = str_append "invalid MBAP length: " (decimal n)
error_text (read_pdu_failed e) = str_append "read PDU: " e
error_text pdu_too_short = "PDU too short"
error_text pdu_data_short = "PDU data short"
error_text (no_matching_response tx) =
    str_append "timeout waiting for matching response (txID=" (str_append (decimal tx) ")")
error_text (no_write_response tx) =
    str_append "timeout waiting for write response (txID=" (str_append (decimal tx) ")")

pub data Reply {ℓ} (A : Type ℓ) : Type ℓ where
  ok : A → Reply A
  err : ModbusError → Reply A

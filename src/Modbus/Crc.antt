-- ===== src/Modbus/Crc.antt =====
-- `CRC16` of internal/modbus/common.go. The uint16 operations stay below 65536, as is proved.
use Prim.Native.Nat.{bit_xor}
use sofar_hyd_diag.Prelude.{
  ℕ, zero, suc, ◌+◌, ◌*◌, ◌/◌, ◌%◌, ◌^◌, ◌<◌, ◌≡◌, refl, ◌∙◌, List, [], ◌∷◌, ◌++◌, ◌==◌,
  if◌then◌else◌, All, arith,
}
use sofar_hyd_diag.Modbus.Xor.{bit_xor-lt, bit_xor_low, bit_xor_self, even_part}

-- One round of the inner loop.
unfoldable pub crc_bit : ℕ → ℕ
crc_bit crc = if crc % 2 == 1 then bit_xor (crc / 2) 0xA001 else crc / 2

unfoldable pub crc_bits : ℕ → ℕ → ℕ
unfolding crc_bit
crc_bits zero crc = crc
crc_bits (suc n) crc = crc_bits n (crc_bit crc)

unfoldable pub crc_byte : ℕ → ℕ → ℕ
unfolding crc_bits
crc_byte crc b = crc_bits 8 (bit_xor crc b)

unfoldable pub crc_from : ℕ → List ℕ → ℕ
unfolding crc_byte
crc_from crc [] = crc
crc_from crc (b ∷ bytes) = crc_from (crc_byte crc b) bytes

unfoldable pub crc16 : List ℕ → ℕ
unfolding crc_from
crc16 bytes = crc_from 0xFFFF bytes

-- The two bytes that follow a frame, low byte first.
abbrev pub crc_bytes : ℕ → List ℕ
crc_bytes crc = crc % 256 ∷ crc / 256 ∷ []

abbrev pub IsByte : ℕ → Type 0
IsByte b = b < 256

crc_bit-lt : (crc : ℕ) → crc < 65536 → crc_bit crc < 65536
unfolding crc_bit
crc_bit-lt crc h = ground (arith, bit_xor-lt 16 (crc / 2) 0xA001)

crc_bits-lt : (n crc : ℕ) → crc < 65536 → crc_bits n crc < 65536
unfolding crc_bits
crc_bits-lt zero crc h = h
crc_bits-lt (suc n) crc h = crc_bits-lt n (crc_bit crc) (crc_bit-lt crc h)

crc_from-lt :
    (crc : ℕ) (bytes : List ℕ) → crc < 65536 → All IsByte bytes → crc_from crc bytes < 65536
unfolding crc_from crc_byte
crc_from-lt crc [] h all = h
crc_from-lt crc (b ∷ bytes) h all =
    crc_from-lt (crc_byte crc b) bytes
      (crc_bits-lt 8 (bit_xor crc b) (bit_xor-lt 16 crc b h (omega (arith, all.0)))) all.1

-- The checksum of bytes fits 16 bits.
pub crc16-lt : (bytes : List ℕ) → All IsByte bytes → crc16 bytes < 65536
unfolding crc16
crc16-lt bytes all = crc_from-lt 0xFFFF bytes (omega arith) all

pub crc_from-append :
    (crc : ℕ) (xs ys : List ℕ) → crc_from crc (xs ++ ys) ≡ crc_from (crc_from crc xs) ys
unfolding crc_from
crc_from-append crc [] ys = refl
crc_from-append crc (x ∷ xs) ys = crc_from-append (crc_byte crc x) xs ys

crc_bit-even : (h : ℕ) → crc_bit (2 * h) ≡ h
unfolding crc_bit
crc_bit-even h = ground arith

-- Zero digits are shifted out.
crc_bits_shift : (n h : ℕ) → crc_bits n (2 ^ n * h) ≡ h
unfolding crc_bits
crc_bits_shift zero h = omega arith
crc_bits_shift (suc n) h = rw (even_part n h, crc_bit-even) (crc_bits_shift n h)

crc_byte-low : (crc : ℕ) → crc_byte crc (crc % 256) ≡ crc / 256
unfolding crc_byte
crc_byte-low crc = rw low (crc_bits_shift 8 (crc / 256))
  where
    low : bit_xor crc (crc % 256) ≡ 2 ^ 8 * (crc / 256)
    low = rw (← split) at (bit_xor_low 8 (crc / 256) (crc % 256) (omega arith))
      where
        split : crc ≡ 2 ^ 8 * (crc / 256) + crc % 256
        split = omega arith

crc_byte_self : (b : ℕ) → b < 256 → crc_byte b b ≡ 0
unfolding crc_byte
crc_byte_self b h = rw (bit_xor_self 8 b h) (crc_bits_shift 8 0)

crc_from-crc_bytes : (crc : ℕ) → crc < 65536 → crc_from crc (crc_bytes crc) ≡ 0
unfolding crc_from
crc_from-crc_bytes crc h = rw crc_byte-low (crc_byte_self (crc / 256) (omega arith))

-- The receiver's check: over a frame of bytes and its checksum, low byte first, the checksum is 0.
pub crc16-residue :
    (frame : List ℕ) → All IsByte frame → crc16 (frame ++ crc_bytes (crc16 frame)) ≡ 0
unfolding crc16
crc16-residue frame all =
    crc_from-append 0xFFFF frame (crc_bytes (crc16 frame))
    ∙ crc_from-crc_bytes (crc16 frame) (crc16-lt frame all)

-- The request for one register at address 0 of slave 1: 01 03 00 00 00 01 84 0A.
crc16_request : crc_bytes (crc16 (0x01 ∷ 0x03 ∷ 0x00 ∷ 0x00 ∷ 0x00 ∷ 0x01 ∷ [])) ≡ 0x84 ∷ 0x0A ∷ []
unfolding crc16
crc16_request = refl

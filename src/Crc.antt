-- ===== src/Crc.antt =====
-- libraries/xbee_ansic_library/src/util/crc16buypass.c and xmodem_crc16.c: the CRCs.
pub mod Tables
pub mod Bytes
pub mod Equal
mod Tests
use xbeepocs.Base.{
  List, [], bit_and, bit_xor, get_or, if◌then◌else◌, suc, u16, zero, ℕ, ◌<<<◌, ◌==◌, ◌>>>◌, ◌∷◌,
}
use xbeepocs.Crc.Tables.{table_byte, crc16_table}

-- One bit of `crc16buypass_bit`, for a polynomial.
abbrev pub bit_step : ℕ → ℕ → ℕ
bit_step poly crc =
    if bit_and crc 0x8000 == 0 then u16 (crc <<< 1) else u16 (bit_xor (crc <<< 1) poly)

-- The eight bits of a byte.
abbrev pub bit_steps : ℕ → ℕ → ℕ → ℕ
bit_steps poly zero crc = crc
bit_steps poly (suc n) crc = bit_steps poly n (bit_step poly crc)

-- The CRC by bits.
unfoldable pub crc_bit : ℕ → ℕ → List ℕ → ℕ
crc_bit poly crc [] = crc
crc_bit poly crc (b ∷ bytes) = crc_bit poly (bit_steps poly 8 (u16 (bit_xor crc (b <<< 8)))) bytes

unfoldable pub crc16buypass_bit : ℕ → List ℕ → ℕ
unfolding crc_bit
crc16buypass_bit crc bytes = crc_bit 0x8005 crc bytes

unfoldable pub crc16buypass_byte : ℕ → List ℕ → ℕ
crc16buypass_byte crc [] = crc
crc16buypass_byte crc (b ∷ bytes) =
    crc16buypass_byte
      (u16 (bit_xor (crc <<< 8) (get_or table_byte (bit_and (bit_xor (crc >>> 8) b) 0xff) 0))) bytes

-- `crc16_calc`; the index is not cut to 8 bits, and needs `current` to be a 16-bit number.
unfoldable pub crc16_calc : List ℕ → ℕ → ℕ
crc16_calc [] current = current
crc16_calc (b ∷ bytes) current =
    crc16_calc bytes
      (u16 (bit_xor (current <<< 8) (get_or crc16_table (bit_xor (current >>> 8) b) 0)))

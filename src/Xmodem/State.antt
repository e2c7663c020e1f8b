-- ===== src/Xmodem/State.antt =====
-- xbee_xmodem.c: the state of a transfer, its flags, and the bytes of a packet around a block.
use xbeepocs.Base.{
  Bool, List, Ret, [], bit_and, if◌then◌else◌, not, ret, set, slice, u16, u8, ℕ, ◌+◌, ◌-◌, ◌==◌,
  ◌>>>◌, ◌∷◌,
}
use xbeepocs.Serial.{Read}
use xbeepocs.Crc.{crc16_calc}

-- `xbee_xmodem_read_fn` and `xbee_xmodem_write_fn` with their contexts, and
-- `xbee_millisecond_timer`. A `World` passes through every call.
pub record Io : Type 1 where
  pub World : Type 0
  pub stream_read : ℕ → World → Read × World
  pub stream_write : List ℕ → World → Ret × World
  pub file_read : ℕ → World → Read × World
  pub millisecond_timer : World → ℕ

pub data XmodemState : Type 0 where
  flush start send resend sending wait_ack eof final_ack success failure : XmodemState

-- `buffer` is empty for the null pointer.
pub record Xmodem : Type 0 where
  pub flags : ℕ
  pub packet_num : ℕ
  pub timer : ℕ
  pub state : XmodemState
  pub tries : ℕ
  pub offset : ℕ
  pub buffer : List ℕ

abbrev pub xmodem_nak : ℕ
xmodem_nak = 0x15

abbrev pub xmodem_crc : ℕ
xmodem_crc = 0x43

abbrev pub xmodem_soh : ℕ
xmodem_soh = 0x01

abbrev pub xmodem_stx : ℕ
xmodem_stx = 0x02

abbrev pub xmodem_ack : ℕ
xmodem_ack = 0x06

abbrev pub xmodem_can : ℕ
xmodem_can = 0x18

abbrev pub xmodem_eot : ℕ
xmodem_eot = 0x04

-- `XBEE_XMODEM_FLAG_USER`: the block size and FORCE_CRC.
abbrev pub flag_user : ℕ
flag_user = 0x0308

-- A test of `flags & mask`.
abbrev pub has : ℕ → ℕ → Bool
has mask flags = not (bit_and flags mask == 0)

abbrev pub is_crc : Xmodem → Bool
is_crc x = has 0x0002 x.flags

unfoldable pub tx_init : Xmodem → ℕ → Ret × Xmodem
tx_init x flags =
    (ret 0, record x { flags = bit_and flags flag_user; packet_num = 0; state = XmodemState.start })

unfoldable pub block_size : Xmodem → ℕ
block_size x =
    let mask = bit_and x.flags 0x0300 in
    if mask == 0x0100 then 64 else if mask == 0x0200 then 1024 else 128

unfoldable pub packet_size : Xmodem → ℕ
unfolding block_size
packet_size x = block_size x + (if is_crc x then 5 else 4)

-- The sum of the bytes in 16 bits; only its low byte is sent.
unfoldable pub sum_bytes : ℕ → List ℕ → ℕ
sum_bytes checksum [] = checksum
sum_bytes checksum (b ∷ bytes) = sum_bytes (u16 (checksum + b)) bytes

-- The first three bytes of a packet, and the count of tries.
unfoldable pub header : Xmodem → Xmodem
header x =
    let packet_num = u8 x.packet_num in
    record x {
      tries = 3;
      buffer =
          set
            (set (set x.buffer 0 (if has 0x0200 x.flags then xmodem_stx else xmodem_soh)) 1
              packet_num)
            2 (0xFF - packet_num);
    }

-- The CRC or the checksum behind the block.
unfoldable pub append_check : Xmodem → ℕ → Xmodem
unfolding sum_bytes
append_check x size =
    let block = slice x.buffer 3 size in
    let crc = crc16_calc block 0 in
    record x {
      buffer =
          if is_crc x
          then set (set x.buffer (3 + size) (crc >>> 8)) (4 + size) (bit_and crc 0x00FF)
          else set x.buffer (3 + size) (u8 (sum_bytes 0 block));
    }

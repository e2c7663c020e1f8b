-- ===== src/Transmitter.antt =====
-- testBidirectional/transmitter.c: one turn of the loop that sends the lines of a file, up to the
-- wait and the tick that follow. The file is the bytes that are left to read.
pub mod Frames
mod Tests
use xbeepocs.Base.{
  List, Option, Ret, [], if◌then◌else◌, none, some, splice, suc, u8, zero, ℕ, ◌++◌, ◌+◌, ◌-◌, ◌==◌,
  ◌∷◌,
}
use xbeepocs.Serial.{Os}
use xbeepocs.Device.State.{Dev}
use xbeepocs.Device.Write.{frame_write}

abbrev pub sizeof_payload : ℕ
sizeof_payload = 100

-- `frame_out_header` with its `frame_id`: the address is broadcast, and the fields of 16 bits have
-- the order of the host, which is little-endian.
unfoldable pub frame_out_header : ℕ → List ℕ
frame_out_header frame_id =
    0x11
    ∷ u8 frame_id
    ∷ 0
    ∷ 0
    ∷ 0
    ∷ 0
    ∷ 0
    ∷ 0
    ∷ 0xFF
    ∷ 0xFF
    ∷ 0xFE
    ∷ 0xFF
    ∷ 0xE8
    ∷ 0xE8
    ∷ 0x11
    ∷ 0
    ∷ 0x05
    ∷ 0xC1
    ∷ 0
    ∷ 0
    ∷ []

-- At most `n` bytes, up to and with the first newline, and what follows them.
unfoldable pub take_line : ℕ → List ℕ → List ℕ × List ℕ
take_line zero file = ([], file)
take_line (suc n) [] = ([], [])
take_line (suc n) (b ∷ file) =
    let (line, rest) = take_line n file in if b == 10 then (b ∷ [], file) else (b ∷ line, rest)

-- `fgets`: the line and a terminator are written at the start of the array; the null pointer, and
-- no write, at the end of the file.
unfoldable pub fgets : List ℕ → ℕ → List ℕ → Option (List ℕ × List ℕ)
unfolding take_line
fgets s n [] = none
fgets s n (b ∷ file) =
    let (line, rest) = take_line (n - 1) (b ∷ file) in some (splice s 0 (line ++ (0 ∷ [])), rest)

module _ (sys : Os) where
  open sys use {World}

  pub record Sent : Type 0 where
    pub err : Ret
    pub frame_id : ℕ
    pub payload : List ℕ
    pub messages : List ℕ
    pub world : World

  -- The whole array is the payload. The error is only printed.
  unfoldable pub send_message : Dev → ℕ → List ℕ → List ℕ → World → Option Sent
  unfolding fgets frame_write frame_out_header
  send_message my_xbee frame_id payload messages w = elim (fgets payload sizeof_payload messages) [
    | none ↦ none
    | some (payload', messages') ↦
        let frame_id' = frame_id + 1 in
        let (err, w') =
          frame_write sys my_xbee (some (frame_out_header frame_id')) (some payload') w in
        some (record {
          err = err;
          frame_id = frame_id';
          payload = payload';
          messages = messages';
          world = w';
        })
  ]

-- ===== src/Device/Write.antt =====
-- `xbee_frame_write`, and `xbee_dev_init`, of xbee_device.c.
use xbeepocs.Base.{
  Bool, List, Option, Ret, [], ebusy, einval, emsgsize, enodata, fail, false, if◌then◌else◌, length,
  ltb, none, not, ret, some, true, u16, zero, ℕ, ◌%◌, ◌+◌, ◌/◌, ◌||◌, ◌∷◌,
}
use xbeepocs.Serial.{
  Os, Serial, invalid, ser_write, ser_open, ser_flowcontrol, ser_get_cts, ser_tx_free, ser_tx_used,
}
use xbeepocs.Device.State.{Dev, Entry, zeroed}
use xbeepocs.Device.{checksum}

-- `free < framesize` on the `int` results of the port.
unfoldable pub no_room : Ret → ℕ → Bool
no_room (ret free) framesize = ltb free framesize
no_room (fail e) framesize = true

-- `framesize - free > used`, where there is no room or no CTS.
unfoldable pub too_big : Ret → Ret → ℕ → Bool
too_big (ret free) (ret used) framesize = ltb (free + used) framesize
too_big free used framesize = true

-- The 0x7E marker and the big-endian length.
unfoldable pub prefix : ℕ → List ℕ
prefix len = 0x7E ∷ u16 len / 256 ∷ u16 len % 256 ∷ []

-- A null pointer and an empty block of bytes are the same to the code.
abbrev pub block : Option (List ℕ) → List ℕ
block none = []
block (some bytes) = bytes

unfoldable pub not_empty : List ℕ → Bool
not_empty [] = false
not_empty (b ∷ bytes) = true

module _ (sys : Os) where
  open sys use {World}

  -- The value of CTS, or 1 where it is not looked at.
  unfoldable pub read_cts : Dev → World → Ret × World
  unfolding invalid ser_get_cts
  read_cts d w =
      if invalid d.serport
      then (fail einval, w)
      else if d.flags.use_flowcontrol
      then ser_get_cts sys d.serport w
      else (ret 1, w)

  -- The writes of one frame; their results are not looked at.
  unfoldable pub send_frame : Serial → List ℕ → List ℕ → World → World
  unfolding ser_write checksum prefix not_empty
  send_frame s header payload w =
      let w1 = (ser_write sys s (prefix (length header + length payload)) w).1 in
      let w2 = if not_empty header then (ser_write sys s header w1).1 else w1 in
      let sum1 = if not_empty header then checksum header 0xFF else 0xFF in
      let w3 = if not_empty payload then (ser_write sys s payload w2).1 else w2 in
      let sum2 = if not_empty payload then checksum payload sum1 else sum1 in
      (ser_write sys s (sum2 ∷ []) w3).1

  -- Once CTS is known; a CTS of 0 is deasserted, any other value is not, an error number other
  -- than EINVAL included.
  unfoldable pub write_with : Ret → Dev → List ℕ → List ℕ → World → Ret × World
  unfolding send_frame no_room too_big not_empty ser_tx_free ser_tx_used
  write_with (fail einval) d header payload w = (fail einval, w)
  write_with cts d header payload w =
      let framesize = length header + length payload + 3 + 1 in
      let free = ser_tx_free d.serport in
      let used = ser_tx_used d.serport in
      let deasserted : Bool = elim cts [ ret zero ↦ true | _ ↦ false ] in
      if not (not_empty header || not_empty payload)
      then (fail enodata, w)
      else if deasserted || no_room free framesize
      then (fail (if too_big free used framesize then emsgsize else ebusy), w)
      else (ret 0, send_frame d.serport header payload w)

  unfoldable pub frame_write : Dev → Option (List ℕ) → Option (List ℕ) → World → Ret × World
  unfolding read_cts write_with
  frame_write d header payload w =
      let (cts, w') = read_cts d w in write_with cts d (block header) (block payload) w'

  -- Without a reset pin. The port's error is returned only after the flags are set.
  unfoldable pub dev_init : Serial → List Entry → World → Ret × Dev × World
  unfolding ser_open ser_flowcontrol
  dev_init serport handlers w =
      let (r, port, w1) = ser_open sys serport serport.baudrate w in
      let (error, w2) : Ret × World = elim r [
        | ret zero ↦ ser_flowcontrol sys port true w1
        | other ↦ (other, w1)
      ] in
      let blank = zeroed port handlers in
      (error, record blank { flags = record (blank.flags) { use_flowcontrol = true } }, w2)

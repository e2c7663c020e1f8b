-- ===== src/Xmodem.antt =====
-- libraries/xbee_ansic_library/src/xbee/xbee_xmodem.c: sending a file by Xmodem.
-- The functions behind `stream` and `file`, and the clock, are the parameter `Io`.
pub mod State
pub mod Packets
pub mod Assemble
pub mod Line
pub mod Transfer
pub mod Session
pub mod Waits
pub mod Stuck
mod Tests
use xbeepocs.Base.{
  Bool, Errno, List, Option, Ret, [], bit_or, einval, eio, enodata, enospc, etimedout, fail,
  if◌then◌else◌, length, ltb, none, not, replicate, ret, slice, some, splice, sub_u8, suc, u16,
  zero, ℕ, ◌&&◌, ◌+◌, ◌-◌, ◌==◌, ◌∷◌,
}
use xbeepocs.Serial.{Read, got, failed}
use xbeepocs.Xmodem.State.{
  Io, XmodemState, flush, start, send, resend, sending, wait_ack, eof, final_ack, success, failure,
  Xmodem, xmodem_nak, xmodem_crc, xmodem_soh, xmodem_stx, xmodem_ack, xmodem_can, xmodem_eot,
  flag_user, has, is_crc, tx_init, block_size, packet_size, sum_bytes, header, append_check,
}

-- What `_xbee_xmodem_getchar` makes of a read of one byte.
abbrev pub char_result : Read → Ret
char_result (got []) = fail enodata
char_result (got (ch ∷ [])) = ret ch
char_result (got more) = ret (length more)
char_result (failed e) = fail e

module _ (io : Io) where
  open io use {World, stream_read, stream_write, file_read, millisecond_timer}

  unfoldable pub xm_getchar : World → Ret × World
  xm_getchar w = let (r, w') = stream_read 1 w in (char_result r, w')

  unfoldable pub xm_putchar : ℕ → World → Ret × World
  xm_putchar ch w =
      let (r, w') = stream_write (ch ∷ []) w in
      elim r [ ret zero ↦ (fail enospc, w') | ret (suc zero) ↦ (ret 0, w') | other ↦ (other, w') ]

  -- The end of the file: `state` is EOF, and the result 1.
  abbrev pub read_to_end : Xmodem → World → Ret × Xmodem × World
  read_to_end x w = (ret 1, record x { state = eof }, w)

  -- A block that came short is filled up, if a read of one byte more gives none.
  unfoldable pub short_read : Xmodem → Xmodem → Read → World → Ret × Xmodem × World
  short_read x full (got (ch ∷ [])) w = (fail eio, x, w)
  short_read x full other w = (ret 0, full, w)

  -- What was read from the file, and the rest of the packet.
  unfoldable pub fill : Xmodem → ℕ → List ℕ → World → Ret × Xmodem × World
  unfolding append_check short_read
  fill x size bytes w =
      let x' : Xmodem = record x { buffer = splice x.buffer 3 bytes } in
      let pad = replicate (size - length bytes) 0xFF in
      let x'' : Xmodem = record x { buffer = splice x'.buffer (3 + length bytes) pad } in
      if ltb (length bytes) size
      then (let (more, w') = file_read 1 w in short_read x' (append_check x'' size) more w')
      else (ret 0, append_check x' size, w)

  -- What `_assemble_packet` makes of its read of the file.
  unfoldable pub from_file : Xmodem → ℕ → Read → World → Ret × Xmodem × World
  unfolding fill
  from_file x size (failed enodata) w = read_to_end x w
  from_file x size (failed e) w = (fail e, x, w)
  from_file x size (got []) w = read_to_end x w
  from_file x size (got (b ∷ bytes)) w = fill x size (b ∷ bytes) w

  -- `_assemble_packet`: 0 for a packet in the buffer, 1 at the end of the file.
  unfoldable pub assemble_packet : Xmodem → ℕ → World → Ret × Xmodem × World
  unfolding header from_file
  assemble_packet x size w = let (r, w') = file_read size w in from_file (header x) size r w'

  -- What a tick gives back; `none` is a loop that does not end.
  abbrev pub Ticked : Type 0
  Ticked = Option (Ret × Xmodem × World)

  -- The label `failure`.
  unfoldable pub abort : Errno → Xmodem → World → Ret × Xmodem × World
  abort e x w =
      let (r, w') = stream_write (xmodem_can ∷ xmodem_can ∷ []) w in
      (fail e, record x { state = failure }, w')

  -- What the stream took of the packet.
  unfoldable pub on_sent : Xmodem → Ret → World → Ret × Xmodem × World
  unfolding packet_size abort
  on_sent x (fail e) w = abort e x w
  on_sent x (ret sent) w =
      let x' : Xmodem = record x { offset = x.offset + sent } in
      if x'.offset == packet_size x
      then (ret 0, record x' { state = wait_ack; timer = u16 (millisecond_timer w) }, w)
      else (ret 0, x', w)

  -- The case SENDING: as much of the packet as the stream takes.
  unfoldable pub send_bytes : Xmodem → World → Ret × Xmodem × World
  unfolding on_sent
  send_bytes x w =
      let (r, w') = stream_write (slice x.buffer x.offset (packet_size x - x.offset)) w in
      on_sent x r w'

  -- The case RESEND.
  unfoldable pub send_again : Xmodem → World → Ret × Xmodem × World
  unfolding send_bytes
  send_again x w = send_bytes (record x { offset = 0 }) w

  -- The loop that drops what the receiver has sent, until the stream is empty. An error other than
  -- -ENODATA does not end it.
  unfoldable pub drop_chars : ℕ → World → Option World
  unfolding xm_getchar
  drop_chars zero w = none
  drop_chars (suc fuel) w =
      let (ch, w') = xm_getchar w in
      let rest = drop_chars fuel w' in elim ch [ fail enodata ↦ some w' | other ↦ rest ]

  -- What the case SEND does with a packet, an error or the end of the file.
  unfoldable pub assembled : ℕ → Ret × Xmodem × World → Ticked
  unfolding drop_chars send_again
  assembled fuel (fail e, x, w) = some (abort e x w)
  assembled fuel (ret zero, x, w) = elim (drop_chars fuel w) [
    | none ↦ none
    | some w' ↦ some (send_again x w')
  ]
  assembled fuel (ret (suc n), x, w) = some (ret 0, x, w)

  -- The case SEND.
  unfoldable pub send_next : ℕ → Xmodem → World → Ticked
  unfolding assemble_packet assembled
  send_next fuel x w = assembled fuel (assemble_packet x (block_size x) w)

  -- The first packet, once the receiver has asked for it.
  abbrev pub begin : ℕ → ℕ → Xmodem → World → Ticked
  begin fuel flag x w =
      send_next fuel
        (record x { flags = bit_or x.flags flag; state = XmodemState.send; packet_num = 1 }) w

  -- The answer of the receiver to the case START.
  unfoldable pub start_with : ℕ → Xmodem → Ret → World → Ticked
  unfolding send_next
  start_with fuel x (fail e) w = some (ret 0, x, w)
  start_with fuel x (ret ch) w =
      if ch == xmodem_nak && not (has 0x0008 x.flags)
      then begin fuel 0x0001 x w
      else if ch == xmodem_crc
      then begin fuel 0x0002 x w
      else some (ret 0, x, w)

  -- The case START.
  unfoldable pub await_start : ℕ → Xmodem → World → Ticked
  unfolding xm_getchar start_with
  await_start fuel x w = let (r, w') = xm_getchar w in start_with fuel x r w'

  -- The loop of the case FLUSH, which reads into the buffer.
  unfoldable pub flush_input : ℕ → Xmodem → World → Option (Xmodem × World)
  flush_input zero x w = none
  flush_input (suc fuel) x w =
      let (r, w') = stream_read 64 w in
      elim r [
        | got (b ∷ bytes) ↦
            flush_input fuel (record x { buffer = splice x.buffer 0 (b ∷ bytes) }) w'
        | other ↦ some (x, w')
      ]

  -- An answer that is no ACK, or none for `limit` milliseconds. The clock and `timer` are compared
  -- as `int`, so the difference may be negative.
  abbrev pub still_early : ℕ → Xmodem → World → Bool
  still_early limit x w = ltb (u16 (millisecond_timer w)) (x.timer + limit)

  -- One try less; with none left the transfer is aborted.
  unfoldable pub retry : XmodemState → Xmodem → World → Ret × Xmodem × World
  unfolding abort
  retry s x w =
      let x' : Xmodem = record x { tries = sub_u8 x.tries 1 } in
      if x'.tries == 0 then abort etimedout x' w else (ret 0, record x' { state = s }, w)

  -- The answer of the receiver: what an ACK leads to, the limit, and the state of a new try.
  unfoldable pub on_answer :
      (Xmodem → World → Ret × Xmodem × World)
      → ℕ
      → XmodemState
      → Xmodem
      → Ret
      → World
      → Ret × Xmodem × World
  unfolding retry
  on_answer acked limit again x (fail e) w =
      if still_early limit x w then (ret 0, x, w) else retry again x w
  on_answer acked limit again x (ret ch) w = if ch == xmodem_ack then acked x w else retry again x w

  -- The cases WAIT_ACK and FINAL_ACK.
  unfoldable pub await_ack :
      (Xmodem → World → Ret × Xmodem × World)
      → ℕ
      → XmodemState
      → Xmodem
      → World
      → Ret × Xmodem × World
  unfolding xm_getchar on_answer
  await_ack acked limit again x w = let (r, w') = xm_getchar w in on_answer acked limit again x r w'

  abbrev pub next_packet : Xmodem → World → Ret × Xmodem × World
  next_packet x w =
      (ret 0, record x { packet_num = u16 (x.packet_num + 1); state = XmodemState.send }, w)

  abbrev pub finished : Xmodem → World → Ret × Xmodem × World
  finished x w = (ret 1, record x { state = success }, w)

  -- The case EOF.
  unfoldable pub send_eot : Xmodem → World → Ret × Xmodem × World
  unfolding xm_putchar
  send_eot x w =
      let (r, w') = xm_putchar xmodem_eot w in
      (ret 0, record x { state = final_ack; timer = u16 (millisecond_timer w') }, w')

  -- The switch on the state.
  unfoldable pub tick_in : XmodemState → ℕ → Xmodem → World → Ticked
  unfolding flush_input await_start send_next send_again send_bytes await_ack send_eot
  tick_in flush fuel x w = elim (flush_input fuel x w) [
    | none ↦ none
    | some (x', w') ↦ await_start fuel (record x' { state = XmodemState.start }) w'
  ]
  tick_in start fuel x w = await_start fuel x w
  tick_in send fuel x w = send_next fuel x w
  tick_in resend fuel x w = some (send_again x w)
  tick_in sending fuel x w = some (send_bytes x w)
  tick_in wait_ack fuel x w = some (await_ack next_packet 10000 XmodemState.resend x w)
  tick_in eof fuel x w = some (send_eot x w)
  tick_in final_ack fuel x w = some (await_ack finished 3000 eof x w)
  tick_in success fuel x w = some (ret 1, x, w)
  tick_in failure fuel x w = some (fail etimedout, x, w)

  unfoldable pub tx_tick : ℕ → Xmodem → World → Ticked
  unfolding tick_in
  tx_tick fuel x w =
      if length x.buffer == 0 then some (fail einval, x, w) else tick_in x.state fuel x w

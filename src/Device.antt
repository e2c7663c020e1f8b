-- ===== src/Device.antt =====
-- libraries/xbee_ansic_library/src/xbee/xbee_device.c: sending, receiving and dispatching API frames.
-- The frame handlers are the parameter `call`: handler number, frame, device, world.
pub mod State
pub mod Checksum
pub mod Receive
pub mod Ends
pub mod Passes
pub mod Stream
pub mod Write
pub mod Send
pub mod Control
pub mod Tests
use xbeepocs.Base.{
  Bool, List, Option, Ret, [], ebusy, einval, fail, false, get_or, if◌then◌else◌, length, ltb, none,
  ret, some, splice, sub_u8, suc, take, true, u16, u8, zero, ℕ, ◌&&◌, ◌*◌, ◌+◌, ◌-◌, ◌==◌, ◌||◌,
  ◌∷◌,
}
use xbeepocs.Serial.{Os, Serial, Read, got, failed, invalid, ser_read}
use State.{
  RxState, wait_start, length_msb, length_lsb, rx_frame, Rx, Flags, Wpan, Entry, Dev,
  max_rx_frame_len, max_dispatch_per_tick, zeroed,
}

-- The null pointer gives 0.
unfoldable pub next_frame_id : Dev → ℕ × Dev
next_frame_id d =
    let bumped = u8 (d.frame_id + 1) in
    let id = if bumped == 0 then 1 else bumped in (id, record d { frame_id = id })

pub dev_flowcontrol : Dev → Bool → Dev
dev_flowcontrol d enabled = record d { flags = record (d.flags) { use_flowcontrol = enabled } }

pub checksum : List ℕ → ℕ → ℕ
checksum [] initial = initial
checksum (b ∷ bytes) initial = checksum bytes (sub_u8 initial (u8 b))

-- `_xbee_dev_modem_status`; the cases fall through from 0x10 to 0x02.
pub dev_modem_status : Wpan → ℕ → Wpan
dev_modem_status wpan status =
    if status == 0x06
    then record wpan { network = 0x0000; joined = true; authenticated = true }
    else if status == 0x10
    then record wpan { authenticated = true; joined = true }
    else if status == 0x02
    then record wpan { joined = true }
    else if status == 0x00 || status == 0x01 || status == 0x03
    then record wpan { joined = false; authenticated = false; network = 0xFFFE }
    else wpan

-- An entry with type or identifier 0 takes every frame.
pub matches : Entry → ℕ → ℕ → Bool
matches e frametype frameid =
    (e.frame_type == 0 || e.frame_type == frametype) && (e.frame_id == 0 || e.frame_id == frameid)

abbrev pub frame_type_end : ℕ
frame_type_end = 0xFF

-- The bytes of a frame that are still to be read, its checksum byte included.
abbrev pub bytes_left : Rx → ℕ
bytes_left rx = rx.bytes_in_frame + 1 - rx.bytes_read

-- What a read into `frame_data` stores.
abbrev pub stored : Rx → List ℕ → List ℕ
stored rx bytes = splice rx.frame_data rx.bytes_read bytes

abbrev pub set_in_tick : Bool → Dev → Dev
set_in_tick b d = record d { flags = record (d.flags) { in_tick = b } }

-- The frame handlers of a program: handler number, frame, device, world.
abbrev pub Calls : Os → Type 0
Calls sys = ℕ → List ℕ → Dev → sys.World → Dev × sys.World

module _ (sys : Os) (call : Calls sys) where
  open sys use {World}

  -- The handlers that match, called in the order of the table; the number of calls comes back.
  pub run_handlers : List Entry → List ℕ → ℕ → ℕ → Dev → World → ℕ × Dev × World
  unfolding matches
  run_handlers [] frame ft id d w = (0, d, w)
  run_handlers (e ∷ es) frame ft id d w =
      let rest = run_handlers es frame ft id d w in
      let hit : ℕ × Dev × World =
        (let (d', w') = call e.handler frame d w in
          let (n, d'', w'') = run_handlers es frame ft id d' w' in (n + 1, d'', w'')) in
      if e.frame_type == frame_type_end then (0, d, w) else if matches e ft id then hit else rest

  -- `_xbee_frame_dispatch` on a frame of at least two bytes.
  pub frame_dispatch : Dev → List ℕ → World → ℕ × Dev × World
  unfolding run_handlers dev_modem_status
  frame_dispatch d frame w =
      let ft = get_or frame 0 0 in
      let id = get_or frame 1 0 in
      let d' : Dev = if ft == 0x8A then record d { wpan = dev_modem_status d.wpan id } else d in
      run_handlers d'.handlers frame ft id d' w

  -- One call of `xbee_ser_read` in the loop of `_xbee_frame_load`, and what is done with its
  -- result up to the next call: the loop goes on, with the count of frames, or is left.
  pub data Pass : Type 0 where
    again : ℕ → Dev → World → Pass
    exit : Ret → Dev → World → Pass

  -- `_exit_loop`: an error of the port comes before the number of frames.
  abbrev pub leave : Read → ℕ → Dev → World → Pass
  leave (got _) dispatched d w = exit (ret dispatched) d w
  leave (failed e) dispatched d w = exit (fail e) d w

  -- The 1-byte reads: `next` takes the byte, any other result leaves the loop.
  abbrev pub with_byte : Read → ℕ → Dev → World → (ℕ → Pass) → Pass
  with_byte (got (ch ∷ [])) dispatched d w next = next ch
  with_byte r dispatched d w next = leave r dispatched d w

  pub on_start : ℕ → Dev → World → ℕ → Pass
  on_start n d w ch =
      again n (if ch == 0x7E then record d { rx = record (d.rx) { state = length_msb } } else d) w

  pub on_msb : ℕ → Dev → World → ℕ → Pass
  on_msb n d w ch =
      again n
        (if ch == 0x7E
          then d
          else record d { rx = record (d.rx) { bytes_in_frame = ch * 256; state = length_lsb } })
        w

  pub on_lsb : ℕ → Dev → World → ℕ → Pass
  on_lsb n d w ch =
      let len = u16 (d.rx.bytes_in_frame + ch) in
      if ltb max_rx_frame_len len || ltb len 2
      then again n
          (record d {
            rx = record (d.rx) {
              bytes_in_frame = len;
              state = if ch == 0x7E then length_msb else wait_start;
            };
          })
          w
      else again n
          (record d {
            rx = record (d.rx) { bytes_in_frame = len; state = rx_frame; bytes_read = 0 };
          })
          w

  -- All bytes are there: the frame is dropped for a bad checksum, or dispatched.
  pub on_frame : ℕ → Dev → World → Pass
  unfolding checksum frame_dispatch
  on_frame n d w =
      if checksum (take (d.rx.bytes_in_frame + 1) d.rx.frame_data) 0xFF == 0
      then (let (k, d', w') = frame_dispatch d (take d.rx.bytes_in_frame d.rx.frame_data) w in
          if n + 1 == max_dispatch_per_tick then exit (ret (n + 1)) d' w' else again (n + 1) d' w')
      else again n d w

  pub on_data : ℕ → Dev → Read → World → Pass
  unfolding on_frame
  on_data n d (failed e) w = exit (fail e) d w
  on_data n d (got bytes) w =
      if length bytes == bytes_left d.rx
      then on_frame n
          (record d { rx = record (d.rx) { frame_data = stored d.rx bytes; state = wait_start } }) w
      else exit (ret n)
          (record d {
            rx = record (d.rx) {
              frame_data = stored d.rx bytes;
              bytes_read = u16 (d.rx.bytes_read + length bytes);
            };
          })
          w

  -- The `switch`; a case that falls through to the next has set the state of that next case.
  pub pass_in : RxState → ℕ → Dev → World → Pass
  unfolding on_start on_msb on_lsb on_data ser_read
  pass_in wait_start n d w =
      let (r, w') = ser_read sys d.serport 1 w in with_byte r n d w' (on_start n d w')
  pass_in length_msb n d w =
      let (r, w') = ser_read sys d.serport 1 w in with_byte r n d w' (on_msb n d w')
  pass_in length_lsb n d w =
      let (r, w') = ser_read sys d.serport 1 w in with_byte r n d w' (on_lsb n d w')
  pass_in rx_frame n d w =
      let (r, w') = ser_read sys d.serport (bytes_left d.rx) w in on_data n d r w'

  pub pass : ℕ → Dev → World → Pass
  unfolding pass_in
  pass n d w = pass_in d.rx.state n d w

  -- The `for (;;)` on fuel; `none` is fuel that ran out.
  pub load_loop : ℕ → ℕ → Dev → World → Option (Ret × Dev × World)
  unfolding pass
  load_loop zero n d w = none
  load_loop (suc fuel) n d w = elim (pass n d w) [
    | again n' d' w' ↦ load_loop fuel n' d' w'
    | exit r d' w' ↦ some (r, d', w')
  ]

  pub frame_load : ℕ → Dev → World → Option (Ret × Dev × World)
  unfolding load_loop invalid
  frame_load fuel d w = if invalid d.serport then some (fail einval, d, w) else load_loop fuel 0 d w

  pub dev_tick : ℕ → Dev → World → Option (Ret × Dev × World)
  unfolding frame_load
  dev_tick fuel d w =
      if d.flags.in_tick
      then some (fail ebusy, d, w)
      else elim (frame_load fuel (set_in_tick true d) w) [
        | none ↦ none
        | some (frames, d', w') ↦ some (frames, set_in_tick false d', w')
      ]

-- ===== src/Device/Tests.antt =====
-- The driver over a port that is two lists of bytes, and its theorems at concrete devices.
use xbeepocs.Base.{
  List, Option, Ret, [], ap, arith, drop, eagain, ebusy, fail, false, if◌then◌else◌, length,
  length-drop, length-replicate, length-take, none, refl, replicate, ret, some, subst, take, true,
  ℕ, ◌++◌, ◌+◌, ◌==◌, ◌∷◌, ◌≡◌, ◌≤◌,
}
use xbeepocs.Serial.{Sys, done, errno, Os, Serial, got, ser_read, read_result}
use xbeepocs.Device.State.{Entry, Dev, max_rx_frame_len, zeroed, max_dispatch_per_tick}
use xbeepocs.Device.{Calls, load_loop, dev_tick, frame_load, frame_dispatch, run_handlers, pass}
use xbeepocs.Device.Receive.{IsValid, KeepsRx, PassIsValid, pass-IsValid}
use xbeepocs.Device.Ends.{Drains, Ended, frame_load-Ended, dev_tick_lem}
use xbeepocs.Device.Passes.{Feeds}
use xbeepocs.Device.Stream.{received, load_loop-encode}
use xbeepocs.Device.Write.{frame_write}
use xbeepocs.Device.Send.{encode, Accepts, frame_write_lem}
use xbeepocs.Device.Control.{ArePicked, call_all, run_handlers_lem}

-- Bytes to be read, bytes written, and the handlers called.
pub record Wire : Type 0 where
  pub input : List ℕ
  pub output : List ℕ
  pub log : List ℕ

abbrev pub read_list : ℕ → List ℕ → Sys (List ℕ) × List ℕ
read_list n [] = (errno eagain, [])
read_list n (b ∷ bytes) = (done (take n (b ∷ bytes)), drop n (b ∷ bytes))

abbrev pub read_wire : ℕ → Wire → Sys (List ℕ) × Wire
read_wire n w = let (r, rest) = read_list n w.input in (r, record w { input = rest })

pub read_list_bound :
    (n : ℕ) (input bytes : List ℕ) → (read_list n input).0 ≡ done bytes → length bytes ≤ n
read_list_bound n [] bytes e = cc
read_list_bound n (b ∷ more) bytes e =
    let same : take n (b ∷ more) ≡ bytes = cc in
    subst (λ k. length k ≤ n) same (omega (arith, length-take n (b ∷ more)))

-- CTS is always asserted.
abbrev pub wire : Os
wire = record {
  World = Wire;
  Termios = Unit;
  sys_open = λ name w. (done 3, w);
  sys_fcntl = λ fd w. w;
  sys_close = λ fd w. (done _, w);
  sys_read = λ fd n w. read_wire n w;
  sys_write = λ fd bytes w. (done (length bytes), record w { output = w.output ++ bytes });
  sys_tcgetattr = λ fd w. (done _, w);
  sys_tcsetattr = λ fd t w. (done _, w);
  sys_modem_cts = λ fd w. (done true, w);
  sys_input_queue = λ fd w. (done (length w.input), w);
  set_raw = λ baud t. t;
  set_flow = λ on t. t;
  read_bound = λ fd n w w' bytes e. read_list_bound n w.input bytes (ap (λ p. p.0) e);
}

-- A handler records its number.
abbrev noted : Calls wire
noted h frame d w = (d, record w { log = w.log ++ (h ∷ []) })

noted-KeepsRx : KeepsRx wire noted
noted-KeepsRx h frame d w = refl

abbrev pending : Wire → ℕ
pending w = length w.input

abbrev port : Serial
port = record { baudrate = 115200; fd = some 3; device = replicate 40 0 }

-- Two entries for transmit status frames, the second for identifier 7 only, and one for all frames.
abbrev table : List Entry
table =
    record { frame_type = 0x8B; frame_id = 0; handler = 1 }
    ∷ record { frame_type = 0x8B; frame_id = 7; handler = 2 }
    ∷ record { frame_type = 0; frame_id = 0; handler = 3 }
    ∷ record { frame_type = 0xFF; frame_id = 0; handler = 4 }
    ∷ []

abbrev pub dev : Dev
dev = zeroed port table

abbrev pub idle : Wire
idle = record { input = []; output = []; log = [] }

dev-IsValid : IsValid dev.rx
dev-IsValid = record { room = length-replicate {A = ℕ} (max_rx_frame_len + 1) 0; within = λ e. cc }

drains_list :
    (n : ℕ) (input bytes : List ℕ)
    → read_result (read_list n input).0 ≡ got bytes
    → length (read_list n input).1 + length bytes ≤ length input
drains_list n [] bytes e =
    let same : [] ≡ bytes = cc in
    subst (λ k. length {A = ℕ} [] + length k ≤ length {A = ℕ} []) same (omega arith)
drains_list n (b ∷ more) bytes e =
    let same : take n (b ∷ more) ≡ bytes = cc in
    subst (λ k. length (drop n (b ∷ more)) + length k ≤ length (b ∷ more)) same
      (omega (arith, length-take n (b ∷ more), length-drop n (b ∷ more)))

drains :
    (fd : Option ℕ) (s : Serial) (n : ℕ) (w : Wire) (bytes : List ℕ)
    → s.fd ≡ fd
    → (ser_read wire s n w).0 ≡ got bytes
    → pending (ser_read wire s n w).1 + length bytes ≤ pending w
unfolding ser_read
drains none s n w bytes f e = cc (rw f at e)
drains (some fd) s n w bytes f e = rw f (drains_list n w.input bytes (rw f at e))

wire-Drains : Drains wire noted pending
wire-Drains = record {
  reads = λ s n w bytes e. drains s.fd s n w bytes refl e;
  handlers = λ h frame d w. omega arith;
}

abbrev feed : List ℕ → Wire
feed bytes = record idle { input = bytes }

wire-Feeds : Feeds wire feed
wire-Feeds = record { serves = λ fd n b bytes. refl; dry = λ fd n. refl }

pub wire-Accepts : Accepts wire (λ w. w.output)
wire-Accepts = record { write_all = λ fd bytes w. refl; cts_silent = λ fd w. refl }

-- A transmit status for identifier 7.
abbrev status : List ℕ
status = 0x8B ∷ 7 ∷ 0x12 ∷ []

abbrev called : Option (Ret × Dev × Wire) → Option (Ret × List ℕ)
called none = none
called (some (r, d, w)) = some (r, w.log)

-- A frame is taken from the line, and its handlers run in order.
ticks_once :
    called (dev_tick wire noted 20 dev (feed (1 ∷ 2 ∷ encode status)))
    ≡ some (ret 1, 1 ∷ 2 ∷ 3 ∷ [])
unfolding dev_tick
ticks_once = refl

pass-IsValid_example :
    PassIsValid wire noted noted-KeepsRx (pass wire noted 0 dev (feed (0x7E ∷ [])))
pass-IsValid_example = pass-IsValid wire noted noted-KeepsRx 0 dev (feed (0x7E ∷ [])) dev-IsValid

frame_load-Ended_example :
    Ended wire noted noted-KeepsRx pending wire-Drains
      (frame_load wire noted 8 dev (feed (encode status)))
frame_load-Ended_example =
    frame_load-Ended wire noted noted-KeepsRx pending wire-Drains 8 dev (feed (encode status))
      (omega arith) dev-IsValid

dev_tick_lem_example :
    (dev.flags.in_tick ≡ true
      → dev_tick wire noted 8 dev (feed (encode status))
        ≡ some (fail ebusy, dev, feed (encode status)))
    × (dev.flags.in_tick ≡ false
        → (r : Ret) × (d' : Dev) × (w' : Wire) × (dev_tick wire noted 8 dev (feed (encode status))
            ≡ some (r, d', w'))
          × IsValid d'.rx
          × (d'.flags.in_tick ≡ false))
dev_tick_lem_example =
    dev_tick_lem wire noted noted-KeepsRx pending wire-Drains 8 dev (feed (encode status))
      (omega arith) dev-IsValid

load_loop-encode_example :
    let after = record dev { rx = received dev.rx status } in
    let (k, d', w') = frame_dispatch wire noted after status (feed []) in
    load_loop wire noted (2 + (4 + 1)) 0 dev (feed ((1 ∷ 2 ∷ []) ++ (encode status ++ []))) ≡ (
      if 0 + 1 == max_dispatch_per_tick
      then some (ret (0 + 1), d', w')
      else load_loop wire noted 1 (0 + 1) d' w')
load_loop-encode_example =
    load_loop-encode wire noted feed wire-Feeds 3 1 0 dev (1 ∷ 2 ∷ []) status [] refl refl
      (length-replicate {A = ℕ} (max_rx_frame_len + 1) 0)
      (λ e. absurd (omega arith), (λ e. absurd (omega arith), _)) (omega arith) (omega arith)

frame_write_lem_example :
    ((frame_write wire dev (some (0x8B ∷ [])) (some (7 ∷ [])) idle).0 ≡ ret 0)
    × ((frame_write wire dev (some (0x8B ∷ [])) (some (7 ∷ [])) idle).1.output
        ≡ [] ++ encode (0x8B ∷ 7 ∷ []))
frame_write_lem_example =
    frame_write_lem wire (λ w. w.output) wire-Accepts dev 3 (some (0x8B ∷ [])) (some (7 ∷ [])) idle
      refl (λ off. cc) (omega arith) (omega arith)

run_handlers_lem_example :
    (picks : List Entry) × ArePicked 0x8B 7 table picks
    × (run_handlers wire noted table status 0x8B 7 dev idle ≡ (
      length picks,
      (call_all wire noted picks status (dev, idle)).0,
      (call_all wire noted picks status (dev, idle)).1,
    ))
run_handlers_lem_example = run_handlers_lem wire noted table status 0x8B 7 dev idle

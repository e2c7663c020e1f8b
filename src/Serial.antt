-- ===== src/Serial.antt =====
-- libraries/xbee_ansic_library/ports/posix/xbee_serial_posix.c: the serial port under the driver.
-- The system calls are the parameter `Os`; a function that changes `*serial` returns the new one.
pub mod Laws
use xbeepocs.Base.{
  Bool, Errno, List, Option, Ret, [], eagain, einval, enodata, enospc, fail, false, if◌then◌else◌,
  length, ltb, none, ret, set, some, suc, true, u8, zero, ℕ, ◌-◌, ◌==◌, ◌^◌, ◌||◌, ◌∷◌, ◌≡◌, ◌≤◌,
}

-- What a system call gives back.
pub data Sys {ℓ} (A : Type ℓ) : Type ℓ where
  done : A → Sys A
  errno : Errno → Sys A

-- The kernel, the terminal and all else outside the process's driver structures. A `World` passes
-- through every call. `set_raw` is cfsetispeed, cfsetospeed, cfmakeraw and CLOCAL together;
-- `set_flow` sets or clears XBEE_FLOW_FLAGS.
pub record Os : Type 1 where
  pub World : Type 0
  pub Termios : Type 0
  pub sys_open : List ℕ → World → Sys ℕ × World
  pub sys_fcntl : ℕ → World → World
  pub sys_close : ℕ → World → Sys (Unit {0}) × World
  pub sys_read : ℕ → ℕ → World → Sys (List ℕ) × World
  pub sys_write : ℕ → List ℕ → World → Sys ℕ × World
  pub sys_tcgetattr : ℕ → World → Sys Termios × World
  pub sys_tcsetattr : ℕ → Termios → World → Sys (Unit {0}) × World
  pub sys_modem_cts : ℕ → World → Sys Bool × World
  pub sys_input_queue : ℕ → World → Sys ℕ × World
  pub set_raw : ℕ → Termios → Termios
  pub set_flow : Bool → Termios → Termios
  -- `read` never returns more than was asked for.
  pub read_bound :
      (fd n : ℕ) (w w' : World) (bytes : List ℕ)
      → sys_read fd n w ≡ (done bytes, w')
      → length bytes ≤ n

-- `xbee_serial_t`. `fd` is `none` for a negative descriptor.
pub record Serial : Type 0 where
  pub baudrate : ℕ
  pub fd : Option ℕ
  pub device : List ℕ

-- What `xbee_ser_read` returns, with the bytes that it stored.
pub data Read : Type 0 where
  got : List ℕ → Read
  failed : Errno → Read

unfoldable pub invalid : Serial → Bool
invalid s = elim s.fd [ some _ ↦ false | none ↦ true ]

-- EAGAIN, no input yet, counts as nothing read.
abbrev pub read_result : Sys (List ℕ) → Read
read_result (done bytes) = got bytes
read_result (errno eagain) = got []
read_result (errno e) = failed e

abbrev pub count_result : Sys ℕ → Ret
count_result (done n) = ret n
count_result (errno e) = fail e

abbrev pub cts_result : Sys Bool → Ret
cts_result (done cts) = ret (if cts then 1 else 0)
cts_result (errno e) = fail e

abbrev pub int_max : ℕ
int_max = 2 ^ 31 - 1

-- `_BAUDCASE` of `xbee_ser_baudrate`, with B230400, B460800 and B921600 defined.
unfoldable pub known_rate : ℕ → Bool
known_rate b =
    b == 0
    || b == 9600
    || b == 19200
    || b == 38400
    || b == 57600
    || b == 115200
    || b == 230400
    || b == 460800
    || b == 921600

abbrev pub sizeof_device : ℕ
sizeof_device = 40

unfoldable pub ser_tx_free : Serial → Ret
unfolding invalid
ser_tx_free s = if invalid s then fail einval else ret int_max

unfoldable pub ser_tx_used : Serial → Ret
unfolding invalid
ser_tx_used s = if invalid s then fail einval else ret 0

-- Descriptor 0 and the negative ones mean that the port is not open yet.
unfoldable pub is_open : Serial → Bool
is_open s = elim s.fd [ none ↦ false | some fd ↦ ltb 0 fd ]

module _ (sys : Os) where
  open sys use {
    World, sys_open, sys_fcntl, sys_close, sys_read, sys_write, sys_tcgetattr, sys_tcsetattr,
    sys_modem_cts, sys_input_queue, set_raw, set_flow,
  }

  unfoldable pub ser_write : Serial → List ℕ → World → Ret × World
  ser_write s buffer w = elim s.fd [
    | none ↦ (fail einval, w)
    | some fd ↦ let (r, w') = sys_write fd buffer w in (count_result r, w')
  ]

  unfoldable pub ser_read : Serial → ℕ → World → Read × World
  ser_read s bufsize w = elim s.fd [
    | none ↦ (failed einval, w)
    | some fd ↦ let (r, w') = sys_read fd bufsize w in (read_result r, w')
  ]

  unfoldable pub ser_putchar : Serial → ℕ → World → Ret × World
  unfolding ser_write
  ser_putchar s ch w =
      let (r, w') = ser_write s (u8 ch ∷ []) w in
      elim r [ ret zero ↦ (fail enospc, w') | ret (suc zero) ↦ (ret 0, w') | other ↦ (other, w') ]

  unfoldable pub ser_getchar : Serial → World → Ret × World
  unfolding ser_read
  ser_getchar s w =
      let (r, w') = ser_read s 1 w in
      elim r [
        | got [] ↦ (fail enodata, w')
        | got (ch ∷ []) ↦ (ret ch, w')
        | got more ↦ (ret (length more), w')
        | failed e ↦ (fail e, w')
      ]

  unfoldable pub ser_rx_used : Serial → World → Ret × World
  ser_rx_used s w = elim s.fd [
    | none ↦ (fail einval, w)
    | some fd ↦ let (r, w') = sys_input_queue fd w in (count_result r, w')
  ]

  -- `baudrate` is recorded only when the terminal took it.
  unfoldable pub ser_baudrate : Serial → ℕ → World → Ret × Serial × World
  unfolding known_rate
  ser_baudrate s baud w = elim s.fd [
    | none ↦ (fail einval, s, w)
    | some fd ↦
        if known_rate baud
        then (let (r, w1) = sys_tcgetattr fd w in
            elim r [
              | errno e ↦ (fail e, s, w1)
              | done t ↦
                  let (r', w2) = sys_tcsetattr fd (set_raw baud t) w1 in
                  elim r' [
                    | errno e ↦ (fail e, s, w2)
                    | done _ ↦ (ret 0, record s { baudrate = baud }, w2)
                  ]
            ])
        else (fail einval, s, w)
  ]

  -- The last byte of the name is made a terminator before the name is used.
  unfoldable pub ser_open : Serial → ℕ → World → Ret × Serial × World
  unfolding ser_baudrate is_open
  ser_open s baud w =
      let named : Serial = record s { device = set s.device (sizeof_device - 1) 0 } in
      if is_open named
      then ser_baudrate named baud w
      else (let (r, w') = sys_open named.device w in
          elim r [
            | errno e ↦ (fail e, record named { fd = none }, w')
            | done fd ↦ ser_baudrate (record named { fd = some fd }) baud (sys_fcntl fd w')
          ])

  -- The descriptor is given up even where `close` failed.
  unfoldable pub ser_close : Serial → World → Ret × Serial × World
  ser_close s w = elim s.fd [
    | none ↦ (fail einval, s, w)
    | some fd ↦
        let (r, w') = sys_close fd w in
        (elim r [ done _ ↦ ret 0 | errno e ↦ fail e ], record s { fd = none }, w')
  ]

  unfoldable pub ser_flowcontrol : Serial → Bool → World → Ret × World
  ser_flowcontrol s enabled w = elim s.fd [
    | none ↦ (fail einval, w)
    | some fd ↦
        let (r, w1) = sys_tcgetattr fd w in
        elim r [
          | errno e ↦ (fail e, w1)
          | done t ↦
              let (r', w2) = sys_tcsetattr fd (set_flow enabled t) w1 in
              elim r' [ errno e ↦ (fail e, w2) | done _ ↦ (ret 0, w2) ]
        ]
  ]

  unfoldable pub ser_get_cts : Serial → World → Ret × World
  ser_get_cts s w = elim s.fd [
    | none ↦ (fail einval, w)
    | some fd ↦ let (r, w') = sys_modem_cts fd w in (cts_result r, w')
  ]

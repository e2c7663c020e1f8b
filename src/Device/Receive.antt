-- ===== src/Device/Receive.antt =====
-- `_xbee_frame_load`: the receive buffer is never overrun, whatever the port delivers, and the
-- loop ends.
use xbeepocs.Base.{
  Bool, Bool-cases, List, [], ap, arith, false, get_or, inl, inr, length, length-splice, ltb, refl,
  subst, sym, take, u16, ℕ, ◌*◌, ◌+◌, ◌==◌, ◌||◌, ◌∙◌, ◌∷◌, ◌≡◌, ◌≢◌, ◌≤◌,
}
use xbeepocs.Serial.{Os, Read, got, failed, ser_read}
use xbeepocs.Serial.Laws.{ser_read_bound}
use xbeepocs.Device.State.{
  RxState, wait_start, length_msb, length_lsb, rx_frame, Rx, Dev, Entry, max_rx_frame_len,
}
use xbeepocs.Device.{
  Calls, checksum, Pass, again, exit, with_byte, on_start, on_msb, on_lsb, bytes_left, stored,
  on_frame, on_data, dev_modem_status, pass_in, pass, run_handlers, frame_dispatch,
}

-- What holds of `struct rx` between two reads.
pub record IsValid (rx : Rx) : Type 0 where
  pub room : length rx.frame_data ≡ max_rx_frame_len + 1
  pub within :
      rx.state ≡ rx_frame
      → (2 ≤ rx.bytes_in_frame)
        × (rx.bytes_in_frame ≤ max_rx_frame_len)
        × (rx.bytes_read ≤ rx.bytes_in_frame)

-- What the driver asks of frame handlers: they leave the receive state alone.
abbrev pub KeepsRx : (sys : Os) → Calls sys → Type 0
KeepsRx sys call =
    (h : ℕ) (frame : List ℕ) (d : Dev) (w : sys.World) → (call h frame d w).0.rx ≡ d.rx

module _ (sys : Os) (call : Calls sys) (keeps : KeepsRx sys call) where
  open sys use {World}

  abbrev pub PassIsValid : Pass sys call → Type 0
  PassIsValid (again n d w) = IsValid d.rx
  PassIsValid (exit r d w) = IsValid d.rx

  run_handlers-rx :
      (es : List Entry) (frame : List ℕ) (ft id : ℕ) (d : Dev) (w : World)
      → (run_handlers sys call es frame ft id d w).1.rx ≡ d.rx
  unfolding run_handlers
  run_handlers-rx [] frame ft id d w = refl
  run_handlers-rx (e ∷ es) frame ft id d w = ground (
    arith,
    run_handlers-rx es frame ft id d w,
    run_handlers-rx es frame ft id (call e.handler frame d w).0 (call e.handler frame d w).1,
    keeps e.handler frame d w,
  )

  frame_dispatch-rx :
      (d : Dev) (frame : List ℕ) (w : World) → (frame_dispatch sys call d frame w).1.rx ≡ d.rx
  unfolding frame_dispatch
  frame_dispatch-rx d frame w = elim (Bool-cases (get_or frame 0 0 == 0x8A)) [
    | inl e ↦ rw e (
        run_handlers-rx d.handlers frame (get_or frame 0 0) (get_or frame 1 0)
          (record d { wpan = dev_modem_status d.wpan (get_or frame 1 0) }) w)
    | inr e ↦ rw e (run_handlers-rx d.handlers frame (get_or frame 0 0) (get_or frame 1 0) d w)
  ]

  on_frame-IsValid :
      (n : ℕ) (d : Dev) (w : World) → IsValid d.rx → PassIsValid (on_frame sys call n d w)
  unfolding on_frame
  on_frame-IsValid n d w v = elim (Bool-cases test) [
    | inl e ↦ rw e (elim (Bool-cases (n + 1 == 5)) [
      | inl f ↦ rw f (subst IsValid (sym same) v)
      | inr f ↦ rw f (subst IsValid (sym same) v)
    ])
    | inr e ↦ rw e v
  ]
    where
      test : Bool
      test = checksum (take (d.rx.bytes_in_frame + 1) d.rx.frame_data) 0xFF == 0

      same : (frame_dispatch sys call d (take d.rx.bytes_in_frame d.rx.frame_data) w).1.rx ≡ d.rx
      same = frame_dispatch-rx d (take d.rx.bytes_in_frame d.rx.frame_data) w

  on_data-IsValid :
      (n : ℕ) (d : Dev) (r : Read) (w : World)
      → d.rx.state ≡ rx_frame
      → ((bytes : List ℕ) → r ≡ got bytes → length bytes ≤ bytes_left d.rx)
      → IsValid d.rx
      → PassIsValid (on_data sys call n d r w)
  unfolding on_data
  on_data-IsValid n d (failed e) w st short v = v
  on_data-IsValid n d (got bytes) w st short v =
      elim (Bool-cases (length bytes == bytes_left d.rx)) [
        | inl e ↦ rw e (
            on_frame-IsValid n (record d { rx = whole }) w
              (record { room = fits; within = λ q. cc }))
        | inr e ↦ rw e (record { room = fits; within = λ q. more e })
      ]
    where
      whole : Rx
      whole = record (d.rx) { frame_data = stored d.rx bytes; state = wait_start }

      fits : length (stored d.rx bytes) ≡ max_rx_frame_len + 1
      fits = length-splice bytes d.rx.frame_data d.rx.bytes_read ∙ v.room

      more :
          (length bytes == bytes_left d.rx) ≡ false
          → (2 ≤ d.rx.bytes_in_frame)
            × (d.rx.bytes_in_frame ≤ max_rx_frame_len)
            × (u16 (d.rx.bytes_read + length bytes) ≤ d.rx.bytes_in_frame)
      more e = ground (arith, v.within st, short bytes refl)

  with_byte-IsValid :
      (r : Read) (n : ℕ) (d : Dev) (w : World) (next : ℕ → Pass sys call)
      → IsValid d.rx
      → ((ch : ℕ) → PassIsValid (next ch))
      → PassIsValid (with_byte sys call r n d w next)
  with_byte-IsValid (failed e) n d w next v h = v
  with_byte-IsValid (got []) n d w next v h = v
  with_byte-IsValid (got (ch ∷ [])) n d w next v h = h ch
  with_byte-IsValid (got (a ∷ b ∷ l)) n d w next v h = v

  -- A state other than the last asks nothing of the counters.
  idle :
      (d : Dev) (rx : Rx)
      → rx.frame_data ≡ d.rx.frame_data
      → rx.state ≢ rx_frame
      → IsValid d.rx
      → IsValid rx
  idle d rx same ne v = record { room = ap length same ∙ v.room; within = λ q. absurd (ne q) }

  on_start-IsValid :
      (n : ℕ) (d : Dev) (w : World) (ch : ℕ)
      → IsValid d.rx
      → PassIsValid (on_start sys call n d w ch)
  unfolding on_start
  on_start-IsValid n d w ch v = elim (Bool-cases (ch == 0x7E)) [
    | inl t ↦ rw t (idle d (record (d.rx) { state = length_msb }) refl (λ q. cc) v)
    | inr t ↦ rw t v
  ]

  on_msb-IsValid :
      (n : ℕ) (d : Dev) (w : World) (ch : ℕ) → IsValid d.rx → PassIsValid (on_msb sys call n d w ch)
  unfolding on_msb
  on_msb-IsValid n d w ch v = elim (Bool-cases (ch == 0x7E)) [
    | inl t ↦ rw t v
    | inr t ↦
        rw t (
          idle d (record (d.rx) { bytes_in_frame = ch * 256; state = length_lsb }) refl (λ q. cc) v)
  ]

  on_lsb-IsValid :
      (n : ℕ) (d : Dev) (w : World) (ch : ℕ) → IsValid d.rx → PassIsValid (on_lsb sys call n d w ch)
  unfolding on_lsb
  on_lsb-IsValid n d w ch v = elim (Bool-cases (ltb max_rx_frame_len len || ltb len 2)) [
    | inl t ↦ rw t (elim (Bool-cases (ch == 0x7E)) [
      | inl q ↦
          rw q
            (idle d (record (d.rx) { bytes_in_frame = len; state = length_msb }) refl (λ q. cc) v)
      | inr q ↦
          rw q
            (idle d (record (d.rx) { bytes_in_frame = len; state = wait_start }) refl (λ q. cc) v)
    ])
    | inr t ↦ rw t (record { room = v.room; within = λ q. ground arith })
  ]
    where
      len : ℕ
      len = u16 (d.rx.bytes_in_frame + ch)

  pass_in-IsValid :
      (st : RxState) (n : ℕ) (d : Dev) (w : World)
      → d.rx.state ≡ st
      → IsValid d.rx
      → PassIsValid (pass_in sys call st n d w)
  unfolding pass_in
  pass_in-IsValid wait_start n d w e v =
      with_byte-IsValid (ser_read sys d.serport 1 w).0 n d (ser_read sys d.serport 1 w).1
        (on_start sys call n d (ser_read sys d.serport 1 w).1) v
        (λ ch. on_start-IsValid n d (ser_read sys d.serport 1 w).1 ch v)
  pass_in-IsValid length_msb n d w e v =
      with_byte-IsValid (ser_read sys d.serport 1 w).0 n d (ser_read sys d.serport 1 w).1
        (on_msb sys call n d (ser_read sys d.serport 1 w).1) v
        (λ ch. on_msb-IsValid n d (ser_read sys d.serport 1 w).1 ch v)
  pass_in-IsValid length_lsb n d w e v =
      with_byte-IsValid (ser_read sys d.serport 1 w).0 n d (ser_read sys d.serport 1 w).1
        (on_lsb sys call n d (ser_read sys d.serport 1 w).1) v
        (λ ch. on_lsb-IsValid n d (ser_read sys d.serport 1 w).1 ch v)
  pass_in-IsValid rx_frame n d w e v =
      on_data-IsValid n d (ser_read sys d.serport (bytes_left d.rx) w).0
        (ser_read sys d.serport (bytes_left d.rx) w).1 e
        (λ bytes q.
          ser_read_bound sys d.serport (bytes_left d.rx) w
            (ser_read sys d.serport (bytes_left d.rx) w).1 bytes
            (ap (λ t. (t, (ser_read sys d.serport (bytes_left d.rx) w).1)) q))
        v

  -- With frame handlers that leave the receive state alone, each pass of the loop keeps that
  -- state valid, whatever the port delivers: the buffer keeps its size, and while a frame is read
  -- its length is from 2 to the maximum and the count of its bytes does not pass it.
  pub pass-IsValid :
      (n : ℕ) (d : Dev) (w : World) → IsValid d.rx → PassIsValid (pass sys call n d w)
  unfolding pass
  pass-IsValid n d w v = pass_in-IsValid d.rx.state n d w refl v

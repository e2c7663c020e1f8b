-- ===== src/Device/Ends.antt =====
-- `_xbee_frame_load` and `xbee_dev_tick` come to an end, as far as the port's input is finite.
use xbeepocs.Base.{
  Bool, Bool-cases, List, Option, Ret, [], arith, ebusy, einval, fail, false, get_or, if◌then◌else◌,
  inl, inr, length, ltb, refl, some, suc, take, true, u16, zero, ℕ, ◌+◌, ◌<◌, ◌==◌, ◌||◌, ◌∷◌, ◌≡◌,
  ◌≤◌,
}
use xbeepocs.Serial.{Os, Serial, Read, got, failed, invalid, ser_read}
use xbeepocs.Device.State.{
  RxState, wait_start, length_msb, length_lsb, rx_frame, Dev, Entry, max_rx_frame_len,
}
use xbeepocs.Device.{
  Calls, Pass, again, exit, checksum, with_byte, on_start, on_msb, on_lsb, bytes_left, stored,
  on_frame, on_data, pass_in, pass, load_loop, frame_load, dev_tick, run_handlers, frame_dispatch,
  dev_modem_status, set_in_tick,
}
use xbeepocs.Device.Receive.{IsValid, KeepsRx, PassIsValid, pass-IsValid}

-- A count of the input that is waiting: a read takes what it returns from it, and the frame
-- handlers add nothing.
pub record Drains (sys : Os) (call : Calls sys) (pending : sys.World → ℕ) : Type 0 where
  pub reads :
      (s : Serial) (n : ℕ) (w : sys.World) (bytes : List ℕ)
      → (ser_read sys s n w).0 ≡ got bytes
      → pending (ser_read sys s n w).1 + length bytes ≤ pending w
  pub handlers :
      (h : ℕ) (frame : List ℕ) (d : Dev) (w : sys.World) → pending (call h frame d w).1 ≤ pending w

module _ (sys : Os) (call : Calls sys) (keeps : KeepsRx sys call) (pending : sys.World → ℕ)
    (drains : Drains sys call pending) where
  open sys use {World}

  -- A pass that goes on has less input before it.
  abbrev Shrinks : ℕ → Pass sys call → Type 0
  Shrinks before (again n d w) = pending w < before
  Shrinks before (exit r d w) = Unit

  with_byte-Shrinks :
      (before : ℕ) (r : Read) (n : ℕ) (d : Dev) (w : World) (next : ℕ → Pass sys call)
      → ((bytes : List ℕ) → r ≡ got bytes → pending w + length bytes ≤ before)
      → ((ch : ℕ) → pending w < before → Shrinks before (next ch))
      → Shrinks before (with_byte sys call r n d w next)
  with_byte-Shrinks before (failed e) n d w next h k = tt
  with_byte-Shrinks before (got []) n d w next h k = tt
  with_byte-Shrinks before (got (ch ∷ [])) n d w next h k = k ch (omega (arith, h (ch ∷ []) refl))
  with_byte-Shrinks before (got (a ∷ b ∷ l)) n d w next h k = tt

  run_handlers-pending :
      (es : List Entry) (frame : List ℕ) (ft id : ℕ) (d : Dev) (w : World)
      → pending (run_handlers sys call es frame ft id d w).2 ≤ pending w
  unfolding run_handlers
  run_handlers-pending [] frame ft id d w = omega arith
  run_handlers-pending (e ∷ es) frame ft id d w = ground (
    arith,
    run_handlers-pending es frame ft id d w,
    run_handlers-pending es frame ft id (call e.handler frame d w).0 (call e.handler frame d w).1,
    drains.handlers e.handler frame d w,
  )

  frame_dispatch-pending :
      (d : Dev) (frame : List ℕ) (w : World)
      → pending (frame_dispatch sys call d frame w).2 ≤ pending w
  unfolding frame_dispatch
  frame_dispatch-pending d frame w =
      run_handlers-pending d'.handlers frame (get_or frame 0 0) (get_or frame 1 0) d' w
    where
      d' : Dev
      d' =
          if get_or frame 0 0 == 0x8A
          then record d { wpan = dev_modem_status d.wpan (get_or frame 1 0) }
          else d

  on_frame-Shrinks :
      (before n : ℕ) (d : Dev) (w : World)
      → pending w < before
      → Shrinks before (on_frame sys call n d w)
  unfolding on_frame
  on_frame-Shrinks before n d w h = elim (Bool-cases test) [
    | inl e ↦ rw e (elim (Bool-cases (n + 1 == 5)) [
      | inl f ↦ rw f tt
      | inr f ↦
          rw f
            (omega (arith, frame_dispatch-pending d (take d.rx.bytes_in_frame d.rx.frame_data) w))
    ])
    | inr e ↦ rw e h
  ]
    where
      test : Bool
      test = checksum (take (d.rx.bytes_in_frame + 1) d.rx.frame_data) 0xFF == 0

  on_data-Shrinks :
      (before n : ℕ) (d : Dev) (r : Read) (w : World)
      → 0 < bytes_left d.rx
      → ((bytes : List ℕ) → r ≡ got bytes → pending w + length bytes ≤ before)
      → Shrinks before (on_data sys call n d r w)
  unfolding on_data
  on_data-Shrinks before n d (failed e) w some_left h = tt
  on_data-Shrinks before n d (got bytes) w some_left h =
      elim (Bool-cases (length bytes == bytes_left d.rx)) [
        | inl e ↦ rw e (
            on_frame-Shrinks before n
              (record d {
                rx = record (d.rx) { frame_data = stored d.rx bytes; state = wait_start };
              })
              w (ground (arith, h bytes refl)))
        | inr e ↦ rw e tt
      ]

  on_lsb-again :
      (before n : ℕ) (d : Dev) (w : World) (ch : ℕ)
      → pending w < before
      → Shrinks before (on_lsb sys call n d w ch)
  unfolding on_lsb
  on_lsb-again before n d w ch h = elim (Bool-cases (ltb max_rx_frame_len len || ltb len 2)) [
    | inl t ↦ rw t h
    | inr t ↦ rw t h
  ]
    where
      len : ℕ
      len = u16 (d.rx.bytes_in_frame + ch)

  pass_in-Shrinks :
      (st : RxState) (n : ℕ) (d : Dev) (w : World)
      → d.rx.state ≡ st
      → IsValid d.rx
      → Shrinks (pending w) (pass_in sys call st n d w)
  unfolding pass_in on_start on_msb
  pass_in-Shrinks wait_start n d w e v =
      with_byte-Shrinks (pending w) (ser_read sys d.serport 1 w).0 n d
        (ser_read sys d.serport 1 w).1 _ (drains.reads d.serport 1 w) (λ ch lt. lt)
  pass_in-Shrinks length_msb n d w e v =
      with_byte-Shrinks (pending w) (ser_read sys d.serport 1 w).0 n d
        (ser_read sys d.serport 1 w).1 _ (drains.reads d.serport 1 w) (λ ch lt. lt)
  pass_in-Shrinks length_lsb n d w e v =
      with_byte-Shrinks (pending w) (ser_read sys d.serport 1 w).0 n d
        (ser_read sys d.serport 1 w).1 _ (drains.reads d.serport 1 w)
        (λ ch lt. on_lsb-again (pending w) n d (ser_read sys d.serport 1 w).1 ch lt)
  pass_in-Shrinks rx_frame n d w e v =
      on_data-Shrinks (pending w) n d (ser_read sys d.serport (bytes_left d.rx) w).0
        (ser_read sys d.serport (bytes_left d.rx) w).1 (omega (arith, v.within e))
        (drains.reads d.serport (bytes_left d.rx) w)

  pass-Shrinks :
      (n : ℕ) (d : Dev) (w : World) → IsValid d.rx → Shrinks (pending w) (pass sys call n d w)
  unfolding pass
  pass-Shrinks n d w v = pass_in-Shrinks d.rx.state n d w refl v

  -- A result, with a valid receive state.
  abbrev pub Ended : Option (Ret × Dev × World) → Type 0
  Ended o = (r : Ret) × (d : Dev) × (w : World) × (o ≡ some (r, d, w)) × IsValid d.rx

  abbrev after : ℕ → Pass sys call → Option (Ret × Dev × World)
  after fuel p = elim p [
    | again n d w ↦ load_loop sys call fuel n d w
    | exit r d w ↦ some (r, d, w)
  ]

  load_loop-Ended :
      (fuel n : ℕ) (d : Dev) (w : World)
      → pending w < fuel
      → IsValid d.rx
      → Ended (load_loop sys call fuel n d w)
  unfolding load_loop
  load_loop-Ended zero n d w h v = absurd (omega arith)
  load_loop-Ended (suc fuel) n d w h v =
      go (load_loop-Ended fuel) (pass sys call n d w) (pass-IsValid sys call keeps n d w v)
        (pass-Shrinks n d w v)
    where
      go :
          ((n : ℕ) (d : Dev) (w : World)
            → pending w < fuel
            → IsValid d.rx
            → Ended (load_loop sys call fuel n d w))
          → (p : Pass sys call) → PassIsValid sys call keeps p
          → Shrinks (pending w) p
          → Ended (after fuel p)
      go ih (again n' d' w') v' lt = ih n' d' w' (omega arith) v'
      go ih (exit r d' w') v' lt = (r, d', w', refl, v')

  -- From a valid receive state, with frame handlers that leave that state alone and add no input,
  -- `_xbee_frame_load` returns, given more fuel than there is input, and leaves the receive state
  -- valid.
  pub frame_load-Ended :
      (fuel : ℕ) (d : Dev) (w : World)
      → pending w < fuel
      → IsValid d.rx
      → Ended (frame_load sys call fuel d w)
  unfolding frame_load
  frame_load-Ended fuel d w h v = elim (Bool-cases (invalid d.serport)) [
    | inl e ↦ rw e (fail einval, d, w, refl, v)
    | inr e ↦ rw e (load_loop-Ended fuel 0 d w h v)
  ]

  -- From a valid receive state, with frame handlers that leave that state alone and add no input,
  -- `xbee_dev_tick` called from within itself returns -EBUSY and changes nothing; any other call
  -- returns, given more fuel than there is input, clears the flag that guards it, whatever the
  -- result, and leaves the receive state valid.
  pub dev_tick_lem :
      (fuel : ℕ) (d : Dev) (w : World)
      → pending w < fuel
      → IsValid d.rx
      → (d.flags.in_tick ≡ true → dev_tick sys call fuel d w ≡ some (fail ebusy, d, w))
        × (d.flags.in_tick ≡ false
            → (r : Ret) × (d' : Dev) × (w' : World) × (dev_tick sys call fuel d w
                ≡ some (r, d', w'))
              × IsValid d'.rx
              × (d'.flags.in_tick ≡ false))
  unfolding dev_tick
  dev_tick_lem fuel d w h v = (
    λ e. rw e,
    λ e.
        let (r, d', w', same, v') = frame_load-Ended fuel (set_in_tick true d) w h v in
        (r, set_in_tick false d', w', rw (e, same), v', refl),
  )

-- ===== src/Xmodem/Waits.antt =====
-- xbee_xmodem.c: the loops of a tick end, and a tick of a transfer gives a result.
use xbeepocs.Base.{
  Bool-cases, Errno, List, Option, Ret, [], ap, arith, bit_or, einval, enodata, fail, inl, inr,
  length, ltb, not, refl, ret, some, splice, suc, zero, ℕ, ◌&&◌, ◌<◌, ◌==◌, ◌∷◌, ◌≡◌, ◌≤◌, ◌⊎◌,
}
use xbeepocs.Serial.{Read, got, failed}
use xbeepocs.Xmodem.State.{
  Io, Xmodem, XmodemState, flush, start, send, resend, sending, wait_ack, eof, final_ack, success,
  failure, block_size, xmodem_crc, xmodem_nak, has, header,
}
use xbeepocs.Xmodem.{
  char_result, xm_getchar, short_read, fill, from_file, assemble_packet, drop_chars, assembled,
  send_next, send_again, start_with, await_start, flush_input, tick_in, tx_tick,
}

-- A stream whose input runs out: a read takes some of what is there, or gives none, and then with
-- no error but -ENODATA. Reading the file adds nothing to it.
pub record Drains (io : Io) (pending : io.World → ℕ) : Type 0 where
  pub reads :
      (n b : ℕ) (bytes : List ℕ) (w : io.World)
      → (io.stream_read n w).0 ≡ got (b ∷ bytes)
      → pending (io.stream_read n w).1 < pending w
  pub empties : (n : ℕ) (e : Errno) (w : io.World) → (io.stream_read n w).0 ≡ failed e → e ≡ enodata
  pub stays : (n : ℕ) (w : io.World) → pending (io.stream_read n w).1 ≤ pending w
  pub file_apart : (n : ℕ) (w : io.World) → pending (io.file_read n w).1 ≤ pending w

module _ (io : Io) (pending : io.World → ℕ) (d : Drains io pending) where
  open io use {World, stream_read, file_read}

  -- A character read leaves less, but for the result -ENODATA.
  after_getchar :
      (r : Read) (before after : ℕ)
      → ((b : ℕ) (bytes : List ℕ) → r ≡ got (b ∷ bytes) → after < before)
      → ((e : Errno) → r ≡ failed e → e ≡ enodata)
      → (char_result r ≡ fail enodata) ⊎ (after < before)
  after_getchar (got []) before after less known = inl refl
  after_getchar (got (b ∷ bytes)) before after less known = inr (less b bytes refl)
  after_getchar (failed e) before after less known = inl (ap fail (known e refl))

  step_chars :
      (r : Ret) (w : World) (rest : Option World)
      → (r ≡ fail enodata) ⊎ ((w' : World) × (rest ≡ some w'))
      → (w' : World) × ((elim r as (λ t. Option World) [ fail enodata ↦ some w | other ↦ rest ])
          ≡ some w')
  step_chars (fail enodata) w rest h = (w, refl)
  step_chars (fail e) w rest (inl same) = cc
  step_chars (fail e) w rest (inr h) = h
  step_chars (ret n) w rest (inl same) = cc
  step_chars (ret n) w rest (inr h) = h

  -- The loop that drops characters ends.
  drop_chars-ends :
      (fuel : ℕ) (w : World) → pending w < fuel → (w' : World) × (drop_chars io fuel w ≡ some w')
  unfolding drop_chars xm_getchar
  drop_chars-ends zero w lt = absurd (omega arith)
  drop_chars-ends (suc fuel) w lt =
      let (r, w') = stream_read 1 w in
      step_chars (char_result r) w' (drop_chars io fuel w')
        (elim (after_getchar r (pending w) (pending w') (λ b bytes e. d.reads 1 b bytes w e)
          (λ e same. d.empties 1 e w same)) [
            | inl ended ↦ inl ended
            | inr less ↦ inr (drop_chars-ends fuel w' (omega arith))
          ])

  -- So does the loop that empties the stream.
  flush_input-ends :
      (fuel : ℕ) (x : Xmodem) (w : World)
      → pending w < fuel
      → (x' : Xmodem) × (w' : World) × (flush_input io fuel x w ≡ some (x', w'))
        × (pending w' ≤ pending w)
  unfolding flush_input
  flush_input-ends zero x w lt = absurd (omega arith)
  flush_input-ends (suc fuel) x w lt =
      go (stream_read 64 w).0 (λ b bytes e. d.reads 64 b bytes w e) (flush_input-ends fuel)
    where
      go :
          (r : Read)
          → ((b : ℕ) (bytes : List ℕ)
              → r ≡ got (b ∷ bytes)
              → pending (stream_read 64 w).1 < pending w)
          → ((x : Xmodem) (w : World)
              → pending w < fuel
              → (x' : Xmodem) × (w' : World) × (flush_input io fuel x w ≡ some (x', w'))
                × (pending w' ≤ pending w))
          → (x' : Xmodem) × (w' : World) × ((elim r as (λ t. Option (Xmodem × World)) [
            | got (b ∷ bytes) ↦
                flush_input io fuel
                  (record x { buffer = splice x.buffer 0 (b ∷ bytes) })
                  (stream_read 64 w).1
            | other ↦ some (x, (stream_read 64 w).1)
          ])
              ≡ some (x', w'))
            × (pending w' ≤ pending w)
      go (got []) less ih = (x, (stream_read 64 w).1, refl, d.stays 64 w)
      go (failed e) less ih = (x, (stream_read 64 w).1, refl, d.stays 64 w)
      go (got (b ∷ bytes)) less ih =
          let fewer = less b bytes refl in
          let (x', w', went, le) =
            ih (record x { buffer = splice x.buffer 0 (b ∷ bytes) }) (stream_read 64 w).1
              (omega arith) in
          (x', w', went, omega arith)

  short_read-world : (x full : Xmodem) (r : Read) (w : World) → (short_read io x full r w).2 ≡ w
  unfolding short_read
  short_read-world x full (got []) w = refl
  short_read-world x full (got (ch ∷ [])) w = refl
  short_read-world x full (got (ch ∷ b ∷ more)) w = refl
  short_read-world x full (failed e) w = refl

  fill-le :
      (x : Xmodem) (size : ℕ) (bytes : List ℕ) (w : World)
      → pending (fill io x size bytes w).2 ≤ pending w
  unfolding fill
  fill-le x size bytes w = elim (Bool-cases (ltb (length bytes) size)) [
    | inl short ↦ rw (short, short_read-world) (d.file_apart 1 w)
    | inr full ↦ rw full (omega arith)
  ]

  from_file-le :
      (x : Xmodem) (size : ℕ) (r : Read) (w : World)
      → pending (from_file io x size r w).2 ≤ pending w
  unfolding from_file
  from_file-le x size (failed enodata) w = omega arith
  from_file-le x size (failed e) w = omega arith
  from_file-le x size (got []) w = omega arith
  from_file-le x size (got (b ∷ bytes)) w = fill-le x size (b ∷ bytes) w

  -- A packet, an error or the end of the file lead to a result.
  assembled-ends :
      (fuel : ℕ) (r : Ret) (x : Xmodem) (w : World)
      → pending w < fuel
      → (o : Ret × Xmodem × World) × (assembled io fuel (r, x, w) ≡ some o)
  unfolding assembled
  assembled-ends fuel (fail e) x w lt = (_, refl)
  assembled-ends fuel (ret zero) x w lt =
      let (w', went) = drop_chars-ends fuel w lt in (send_again io x w', rw (went, assembled) refl)
  assembled-ends fuel (ret (suc n)) x w lt = (_, refl)

  send_next-ends :
      (fuel : ℕ) (x : Xmodem) (w : World)
      → pending w < fuel
      → (o : Ret × Xmodem × World) × (send_next io fuel x w ≡ some o)
  unfolding send_next assemble_packet
  send_next-ends fuel x w lt =
      let size = block_size x in
      let (r, w') = file_read size w in
      let p = from_file io (header x) size r w' in
      assembled-ends fuel p.0 p.1 p.2
        (omega (arith, from_file-le (header x) size r w', d.file_apart size w))

  start_with-ends :
      (fuel : ℕ) (x : Xmodem) (r : Ret) (w : World)
      → pending w < fuel
      → (o : Ret × Xmodem × World) × (start_with io fuel x r w ≡ some o)
  unfolding start_with
  start_with-ends fuel x (fail e) w lt = ((ret 0, x, w), refl)
  start_with-ends fuel x (ret ch) w lt =
      elim (Bool-cases (ch == xmodem_nak && not (has 0x0008 x.flags))) [
        | inl nak ↦
            let (o, went) =
              send_next-ends fuel
                (record x { flags = bit_or x.flags 0x0001; state = send; packet_num = 1 }) w lt in
            (o, rw nak went)
        | inr other ↦ elim (Bool-cases (ch == xmodem_crc)) [
          | inl crc ↦
              let (o, went) =
                send_next-ends fuel
                  (record x { flags = bit_or x.flags 0x0002; state = send; packet_num = 1 }) w lt in
              (o, rw (other, crc) went)
          | inr no_start ↦ ((ret 0, x, w), rw (other, no_start) refl)
        ]
      ]

  await_start-ends :
      (fuel : ℕ) (x : Xmodem) (w : World)
      → pending w < fuel
      → (o : Ret × Xmodem × World) × (await_start io fuel x w ≡ some o)
  unfolding await_start xm_getchar
  await_start-ends fuel x w lt =
      let (r, w') = stream_read 1 w in
      start_with-ends fuel x (char_result r) w' (omega (arith, d.stays 1 w))

  tick_in-ends :
      (s : XmodemState) (fuel : ℕ) (x : Xmodem) (w : World)
      → pending w < fuel
      → (o : Ret × Xmodem × World) × (tick_in io s fuel x w ≡ some o)
  unfolding tick_in
  tick_in-ends flush fuel x w lt =
      let (x', w', went, le) = flush_input-ends fuel x w lt in
      let (o, done) = await_start-ends fuel (record x' { state = start }) w' (omega arith) in
      (o, rw (went, tick_in) done)
  tick_in-ends start fuel x w lt = await_start-ends fuel x w lt
  tick_in-ends send fuel x w lt = send_next-ends fuel x w lt
  tick_in-ends resend fuel x w lt = (_, refl)
  tick_in-ends sending fuel x w lt = (_, refl)
  tick_in-ends wait_ack fuel x w lt = (_, refl)
  tick_in-ends eof fuel x w lt = (_, refl)
  tick_in-ends final_ack fuel x w lt = (_, refl)
  tick_in-ends success fuel x w lt = (_, refl)
  tick_in-ends failure fuel x w lt = (_, refl)

  -- On a stream whose input runs out without an error other than -ENODATA, a tick in any state
  -- gives a result, given more fuel than there is input.
  pub tx_tick-ends :
      (fuel : ℕ) (x : Xmodem) (w : World)
      → pending w < fuel
      → (r : Ret) × (x' : Xmodem) × (w' : World) × (tx_tick io fuel x w ≡ some (r, x', w'))
  unfolding tx_tick
  tx_tick-ends fuel x w lt = elim (Bool-cases (length x.buffer == 0)) [
    | inl null ↦ (fail einval, x, w, rw null refl)
    | inr buffer ↦
        let ((r, x', w'), went) = tick_in-ends x.state fuel x w lt in (r, x', w', rw buffer went)
  ]

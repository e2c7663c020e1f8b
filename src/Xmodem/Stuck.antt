-- ===== src/Xmodem/Stuck.antt =====
-- xbee_xmodem.c: a receiver that does not acknowledge, and a stream that takes a part of a packet.
use xbeepocs.Base.{
  Errno, Ret, [], ap, arith, etimedout, fail, false, inl, inr, length, ltb, refl, ret, slice, some,
  sub_u8, take, true, u16, ℕ, ◌+◌, ◌-◌, ◌<◌, ◌==◌, ◌^◌, ◌∙◌, ◌∷◌, ◌≡◌, ◌≢◌, ◌≤◌, ◌⊎◌,
}
use xbeepocs.Xmodem.State.{
  Io, Xmodem, XmodemState, send, resend, wait_ack, failure, packet_size, block_size, xmodem_ack,
  xmodem_can,
}
use xbeepocs.Xmodem.{
  xm_getchar, next_packet, retry, abort, on_answer, await_ack, on_sent, send_bytes, send_again,
  send_next, drop_chars, assembled, assemble_packet, tick_in, tx_tick,
}
use xbeepocs.Xmodem.Transfer.{tick-in}

module _ (io : Io) where
  open io use {World, stream_read, stream_write, millisecond_timer}

  retry-again :
      (s : XmodemState) (x : Xmodem) (w : World)
      → 1 < x.tries
      → x.tries < 2 ^ 8
      → retry io s x w ≡ (ret 0, record x { tries = x.tries - 1; state = s }, w)
  unfolding retry
  retry-again s x w some_left few =
      let less : sub_u8 x.tries 1 ≡ x.tries - 1 = omega arith in
      let test : (x.tries - 1 == 0) ≡ false = ground arith in rw (less, test) refl

  retry-last :
      (s : XmodemState) (x : Xmodem) (w : World)
      → x.tries ≡ 1
      → retry io s x w ≡ abort io etimedout (record x { tries = 0 }) w
  unfolding retry
  retry-last s x w last = let none_left : sub_u8 x.tries 1 ≡ 0 = omega arith in rw none_left refl

  tick-wait_ack :
      (fuel : ℕ) (x : Xmodem) (w : World) (r : Ret) (w' : World)
      → x.state ≡ wait_ack
      → 0 < length x.buffer
      → xm_getchar io w ≡ (r, w')
      → tx_tick io fuel x w ≡ some (on_answer io (next_packet io) 10000 resend x r w')
  tick-wait_ack fuel x w r w' at room e =
      tick-in io fuel x wait_ack w room at
      ∙ unfold tick_in await_ack in
        ap (λ p. some (on_answer io (next_packet io) 10000 resend x p.0 p.1)) e

  -- No ACK, and, where there was no answer, the low bits of the clock past the limit.
  abbrev NoAck : Xmodem → Ret → World → Type 0
  NoAck x r w' =
      ((ch : ℕ) × (r ≡ ret ch) × (ch ≢ xmodem_ack))
      ⊎ ((e : Errno) × (r ≡ fail e) × (x.timer + 10000 ≤ u16 (millisecond_timer w')))

  on_answer-retry :
      (x : Xmodem) (r : Ret) (w' : World)
      → NoAck x r w'
      → on_answer io (next_packet io) 10000 resend x r w' ≡ retry io resend x w'
  unfolding on_answer
  on_answer-retry x (ret ch) w' (inl (n, same, other)) =
      let test : (ch == xmodem_ack) ≡ false = ground arith in rw test refl
  on_answer-retry x (ret ch) w' (inr (e, same, late)) = cc
  on_answer-retry x (fail e) w' (inl (n, same, other)) = cc
  on_answer-retry x (fail e) w' (inr (e', same, late)) =
      let test : ltb (u16 (millisecond_timer w')) (x.timer + 10000) ≡ false = ground arith in
      rw test refl

  -- One answer of the receiver, or none, in the state WAIT_ACK, with tries left. An ACK leads to
  -- the next packet, with its number. No answer changes nothing while the low 16 bits of the clock
  -- are less than the time kept plus 10000; the sum does not wrap round. No answer when they are
  -- not less, and any answer but ACK at any time, takes one try, and has the same packet sent
  -- again; with the last try the transfer is aborted with -ETIMEDOUT, and the receiver is sent CAN
  -- twice.
  pub wait_ack_lem :
      (fuel : ℕ) (x : Xmodem) (w : World) (r : Ret) (w' : World)
      → x.state ≡ wait_ack
      → 0 < length x.buffer
      → 0 < x.tries
      → x.tries < 2 ^ 8
      → xm_getchar io w ≡ (r, w')
      → (r ≡ ret xmodem_ack
          → tx_tick io fuel x w
            ≡ some (ret 0, record x { state = send; packet_num = u16 (x.packet_num + 1) }, w'))
        × ((e : Errno)
            → r ≡ fail e
            → u16 (millisecond_timer w') < x.timer + 10000
            → tx_tick io fuel x w ≡ some (ret 0, x, w'))
        × (NoAck x r w'
            → (1 < x.tries
                → tx_tick io fuel x w
                  ≡ some (ret 0, record x { state = resend; tries = x.tries - 1 }, w'))
              × (x.tries ≡ 1
                  → tx_tick io fuel x w
                    ≡ some (
                      fail etimedout,
                      record x { state = failure; tries = 0 },
                      (stream_write (xmodem_can ∷ xmodem_can ∷ []) w').1,
                    )))
  wait_ack_lem fuel x w r w' at room some_tries few e =
      let went = tick-wait_ack fuel x w r w' at room e in
      (
        λ ack.
            went
            ∙ ap (λ t. some (on_answer io (next_packet io) 10000 resend x t w')) ack
            ∙ unfold on_answer in refl,
        λ err none_yet early.
            let test : ltb (u16 (millisecond_timer w')) (x.timer + 10000) ≡ true = ground arith in
            went
            ∙ ap (λ t. some (on_answer io (next_packet io) 10000 resend x t w')) none_yet
            ∙ unfold on_answer in rw test refl,
        λ no_ack.
            let again = went ∙ ap some (on_answer-retry x r w' no_ack) in
            (
              λ left. again ∙ ap some (retry-again resend x w' left few),
              λ last. again ∙ ap some (retry-last resend x w' last) ∙ unfold abort in refl,
            ),
      )

  -- The limit of 10 seconds is never reached for a packet that was sent when the low 16 bits of
  -- the clock were 55536 or more: a tick in the state WAIT_ACK that reads no character changes
  -- nothing, whatever the clock says.
  pub wait_ack-no_timeout :
      (fuel : ℕ) (x : Xmodem) (w : World) (e : Errno) (w' : World)
      → x.state ≡ wait_ack
      → 0 < length x.buffer
      → 55536 ≤ x.timer
      → xm_getchar io w ≡ (fail e, w')
      → tx_tick io fuel x w ≡ some (ret 0, x, w')
  wait_ack-no_timeout fuel x w e w' at room late silent =
      let test : ltb (u16 (millisecond_timer w')) (x.timer + 10000) ≡ true = ground arith in
      tick-wait_ack fuel x w (fail e) w' at room silent ∙ unfold on_answer in rw test refl

  same_size : (x : Xmodem) (n : ℕ) → packet_size (record x { offset = n }) ≡ packet_size x
  unfolding packet_size block_size
  same_size x n = refl

  send_again-part :
      (x : Xmodem) (w : World) (sent : ℕ)
      → (stream_write (take (packet_size x) x.buffer) w).0 ≡ ret sent
      → sent < packet_size x
      → send_again io x w
        ≡ (ret 0, record x { offset = sent }, (stream_write (take (packet_size x) x.buffer) w).1)
  unfolding send_again send_bytes
  send_again-part x w sent took part =
      let x' : Xmodem = record x { offset = 0 } in
      let all : packet_size x' - 0 ≡ packet_size x = omega (arith, same_size x 0) in
      let w' = (stream_write (take (packet_size x) x.buffer) w).1 in
      let plus : 0 + sent ≡ sent = omega arith in
      let test : (sent == packet_size x) ≡ false = ground arith in
      let went : on_sent io x' (ret sent) w' ≡ (ret 0, record x { offset = sent }, w') =
        unfold on_sent in rw (plus, same_size x 0, test) refl in
      ap (λ k. let (r, w') = stream_write (slice x.buffer 0 k) w in on_sent io x' r w') all
      ∙ ap (λ r. on_sent io x' r w') took
      ∙ went

  -- When the stream takes only a part of a packet that the state SEND has assembled, the state
  -- stays SEND, and the next tick assembles a packet anew, from what the file gives next.
  pub send_part :
      (fuel : ℕ) (x x1 : Xmodem) (w w1 w2 : World) (sent : ℕ)
      → x.state ≡ send
      → 0 < length x.buffer
      → assemble_packet io x (block_size x) w ≡ (ret 0, x1, w1)
      → x1.state ≡ send
      → 0 < length x1.buffer
      → drop_chars io fuel w1 ≡ some w2
      → (stream_write (take (packet_size x1) x1.buffer) w2).0 ≡ ret sent
      → sent < packet_size x1
      → let x' : Xmodem = record x1 { offset = sent } in
        let w' = (stream_write (take (packet_size x1) x1.buffer) w2).1 in
        (tx_tick io fuel x w ≡ some (ret 0, x', w'))
        × (tx_tick io fuel x' w' ≡ assembled io fuel (assemble_packet io x' (block_size x') w'))
  send_part fuel x x1 w w1 w2 sent at room made still room1 dropped took part =
      let x' : Xmodem = record x1 { offset = sent } in
      let w' = (stream_write (take (packet_size x1) x1.buffer) w2).1 in
      (
        tick-in io fuel x send w room at
            ∙ unfold tick_in send_next in
              ap (assembled io fuel) made
              ∙ rw (dropped, assembled) (ap some (send_again-part x1 w2 sent took part)),
        tick-in io fuel x' send w' room1 still ∙ unfold tick_in send_next in refl,
      )

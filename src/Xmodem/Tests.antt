-- ===== src/Xmodem/Tests.antt =====
-- xbee_xmodem.c: two bytes to a receiver that acknowledges, and a line that is slow.
use xbeepocs.Base.{
  Errno, List, Ret, [], arith, enodata, etimedout, fail, length, length-drop, refl, replicate, ret,
  some, suc, true, u16, zero, ℕ, ◌*◌, ◌++◌, ◌+◌, ◌-◌, ◌/◌, ◌<◌, ◌∷◌, ◌≡◌, ◌≢◌, ◌≤◌, ◌⊎◌,
}
use xbeepocs.Serial.{got, failed}
use xbeepocs.Xmodem.State.{
  Io, Xmodem, start, send, resend, wait_ack, success, failure, block_size, packet_size, tx_init,
  xmodem_ack,
}
use xbeepocs.Xmodem.{xm_getchar, drop_chars, assembled, assemble_packet, tx_tick}
use xbeepocs.Xmodem.Assemble.{padded, rest_of_file, IsPacket, assemble_packet_lem}
use xbeepocs.Xmodem.Line.{Line, acking, line, serve, accept, run}
use xbeepocs.Xmodem.Session.{request, tx_session_lem}
use xbeepocs.Xmodem.Waits.{Drains, tx_tick-ends}
use xbeepocs.Xmodem.Stuck.{wait_ack_lem, wait_ack-no_timeout, send_part}

abbrev blank : Xmodem
blank = record {
  flags = 0;
  packet_num = 0;
  timer = 0;
  state = start;
  tries = 0;
  offset = 0;
  buffer = replicate 1029 0;
}

abbrev hello : List ℕ
hello = 72 ∷ 105 ∷ []

-- Packets of 64 bytes, with a checksum.
abbrev sending_64 : Xmodem
sending_64 = record blank { flags = 0x0101; packet_num = 257; state = send }

assemble_packet_lem_example :
    (x' : Xmodem) × (assemble_packet acking sending_64 (block_size sending_64) (line hello [] [])
      ≡ (ret 0, x', rest_of_file acking (block_size sending_64) hello (line [] [] [])))
    × IsPacket acking sending_64 x' (padded (block_size sending_64) hello)
unfolding block_size
assemble_packet_lem_example =
    assemble_packet_lem acking sending_64 (line hello [] []) (line [] [] []) 72 (105 ∷ [])
      (omega arith) (omega arith) refl (omega arith) (omega arith) (λ lt. refl)

tx_session_lem_example :
    let x0 = (tx_init blank 0).1 in
    (n : ℕ) × (x' : Xmodem) × (sent : List (List ℕ)) × (pad : ℕ) × (n
      ≤ 2 * (length hello / block_size x0) + 5)
    × (run n x0 (line hello (request true ∷ []) []) ≡ some (x', line [] [] ([] ++ sent)))
    × (x'.state ≡ success)
    × (accept true (block_size x0) 1 sent ≡ some (hello ++ replicate pad 0xFF))
    × (pad < block_size x0)
tx_session_lem_example =
    tx_session_lem blank 0 true hello [] (omega arith) (omega arith) (λ e. cc) (omega arith)

serve-Drains :
    (n b : ℕ) (bytes replies : List ℕ)
    → (serve (failed enodata) n replies).0 ≡ got (b ∷ bytes)
    → length (serve (failed enodata) n replies).1 < length replies
serve-Drains n b bytes [] e = cc
serve-Drains zero b bytes (r ∷ replies) e = cc
serve-Drains (suc n) b bytes (r ∷ replies) e = omega (arith, length-drop n replies)

serve-stays :
    (n : ℕ) (replies : List ℕ) → length (serve (failed enodata) n replies).1 ≤ length replies
serve-stays n [] = omega arith
serve-stays n (r ∷ replies) = omega (arith, length-drop n (r ∷ replies))

serve-empties :
    (n : ℕ) (e : Errno) (replies : List ℕ)
    → (serve (failed enodata) n replies).0 ≡ failed e
    → e ≡ enodata
serve-empties n e [] same = cc
serve-empties n e (r ∷ replies) same = cc

acking-Drains : Drains acking (λ l. length l.replies)
acking-Drains = record {
  reads = λ n b bytes w e. serve-Drains n b bytes w.replies e;
  empties = λ n e w same. serve-empties n e w.replies same;
  stays = λ n w. serve-stays n w.replies;
  file_apart = λ n w. omega arith;
}

tx_tick-ends_example :
    (r : Ret) × (x' : Xmodem) × (w' : Line) × (tx_tick acking 3 blank
        (line hello (0x43 ∷ 0x43 ∷ []) [])
      ≡ some (r, x', w'))
tx_tick-ends_example =
    tx_tick-ends acking (λ l. length l.replies) acking-Drains 3 blank
      (line hello (0x43 ∷ 0x43 ∷ []) []) (omega arith)

-- A receiver that says nothing, a stream that takes one byte of a write, and an endless file. The
-- world is the clock.
abbrev slow : Io
slow = record {
  World = ℕ;
  stream_read = λ n w. (failed enodata, w);
  stream_write = λ bytes w. (ret 1, w);
  file_read = λ n w. (got (replicate n 7), w);
  millisecond_timer = λ w. w;
}

abbrev waiting : Xmodem
waiting = record blank { state = wait_ack; tries = 2; timer = 60000 }

abbrev early : Xmodem
early = record waiting { timer = 100 }

silent : xm_getchar slow 40000 ≡ (fail enodata, 40000)
unfolding xm_getchar
silent = refl

abbrev SaysNothing : Type 0
SaysNothing =
    ((ch : ℕ) × (fail enodata ≡ ret ch) × (ch ≢ xmodem_ack))
    ⊎ ((e : Errno) × (fail enodata ≡ fail e) × (early.timer + 10000 ≤ u16 40000))

wait_ack_lem_example :
    (fail enodata ≡ ret xmodem_ack
      → tx_tick slow 1 early 40000
        ≡ some (ret 0, record early { state = send; packet_num = u16 (0 + 1) }, 40000))
    × ((e : Errno)
        → fail enodata ≡ fail e
        → u16 40000 < early.timer + 10000
        → tx_tick slow 1 early 40000 ≡ some (ret 0, early, 40000))
    × (SaysNothing
        → (1 < early.tries
            → tx_tick slow 1 early 40000
              ≡ some (ret 0, record early { state = resend; tries = early.tries - 1 }, 40000))
          × (early.tries ≡ 1
              → tx_tick slow 1 early 40000
                ≡ some (fail etimedout, record early { state = failure; tries = 0 }, 40000)))
wait_ack_lem_example =
    wait_ack_lem slow 1 early 40000 (fail enodata) 40000 refl (omega arith) (omega arith)
      (omega arith) silent

wait_ack-no_timeout_example : tx_tick slow 1 waiting 40000 ≡ some (ret 0, waiting, 40000)
wait_ack-no_timeout_example =
    wait_ack-no_timeout slow 1 waiting 40000 enodata 40000 refl (omega arith) (omega arith) silent

abbrev first_packet : Xmodem
first_packet = (assemble_packet slow sending_64 (block_size sending_64) 5).1

first_packet_made :
    assemble_packet slow sending_64 (block_size sending_64) 5 ≡ (ret 0, first_packet, 5)
unfolding assemble_packet block_size
first_packet_made = refl

first_packet_parts :
    (first_packet.state ≡ send) × (0 < length first_packet.buffer) × (1 < packet_size first_packet)
unfolding assemble_packet block_size packet_size
first_packet_parts = (refl, omega arith, omega arith)

nothing_dropped : drop_chars slow 1 5 ≡ some 5
unfolding drop_chars
nothing_dropped = refl

send_part_example :
    let x' : Xmodem = record first_packet { offset = 1 } in
    (tx_tick slow 1 sending_64 5 ≡ some (ret 0, x', 5))
    × (tx_tick slow 1 x' 5 ≡ assembled slow 1 (assemble_packet slow x' (block_size x') 5))
send_part_example =
    send_part slow 1 sending_64 first_packet 5 5 5 1 refl (omega arith) first_packet_made
      first_packet_parts.0 first_packet_parts.1 nothing_dropped refl first_packet_parts.2

-- ===== src/Xmodem/Transfer.antt =====
-- xbee_xmodem.c: a whole transfer, to a receiver that acknowledges all that it gets.
use xbeepocs.Base.{
  ==_iff, Bool-cases, List, [], ap, append-nil, append_assoc, ap₂, arith, bit_and, drop, false, inl,
  inr, leb, leb→le, length, length-drop, length-set, length-take, ltb, ltb→lt, min, refl, replicate,
  ret, some, subst, suc, sym, take, take-append-drop, true, u16, u8, zero, ℕ, ◌*◌, ◌++◌, ◌+◌, ◌-◌,
  ◌<◌, ◌==◌, ◌∙◌, ◌∷◌, ◌≡◌, ◌≢◌, ◌≤◌,
}
use xbeepocs.Serial.{got}
use xbeepocs.Crc.Equal.{AreBytes}
use xbeepocs.Xmodem.State.{
  Io, Xmodem, XmodemState, send, wait_ack, eof, final_ack, success, is_crc, block_size, packet_size,
  xmodem_ack, xmodem_eot, header,
}
use xbeepocs.Xmodem.{
  assembled, next_packet, assemble_packet, drop_chars, send_next, send_again, await_ack, send_eot,
  tick_in, tx_tick,
}
use xbeepocs.Xmodem.Packets.{unpack}
use xbeepocs.Xmodem.Assemble.{padded, rest_of_file, IsPacket, assemble_packet_lem}
use xbeepocs.Xmodem.Line.{
  accept-step, acking, accept, run, run-step, line, take-pos, drop-all, take-AreBytes,
  drop-AreBytes,
}

pub block_size_bounds : (x : Xmodem) → (0 < block_size x) × (block_size x ≤ 1024)
unfolding block_size
block_size_bounds x = ground arith

packet_size-le : (x : Xmodem) → packet_size x ≤ block_size x + 5
unfolding packet_size
packet_size-le x = ground arith

same_sizes :
    (x y : Xmodem)
    → y.flags ≡ x.flags
    → (block_size y ≡ block_size x) × (packet_size y ≡ packet_size x) × (is_crc y ≡ is_crc x)
unfolding block_size packet_size
same_sizes x y e = (rw e, rw e, rw e)

pub tick-in :
    (io : Io) (fuel : ℕ) (x : Xmodem) (s : XmodemState) (w : io.World)
    → 0 < length x.buffer
    → x.state ≡ s
    → tx_tick io fuel x w ≡ tick_in io s fuel x w
unfolding tx_tick
tick-in io fuel x s w some_room e =
    let test : (length x.buffer == 0) ≡ false = ground arith in
    rw test (ap (λ t. tick_in io t fuel x w) e)

-- The packet goes out whole.
send_again-acking :
    (x : Xmodem) (file replies : List ℕ) (log : List (List ℕ))
    → packet_size x ≤ length x.buffer
    → send_again acking x (line file replies log) ≡ (
      ret 0,
      record x { offset = packet_size x; state = wait_ack; timer = 0 },
      line file (xmodem_ack ∷ []) (log ++ (take (packet_size x) x.buffer ∷ [])),
    )
unfolding send_again
send_again-acking x file replies log fits =
    let same : packet_size (record x { offset = 0 }) ≡ packet_size x =
      (same_sizes x (record x { offset = 0 }) refl).1 in
    let all : packet_size x - 0 ≡ packet_size x = omega arith in
    let long : 0 + length (take (packet_size x) x.buffer) ≡ packet_size x =
      omega (arith, length-take (packet_size x) x.buffer) in
    let test : (packet_size x == packet_size x) ≡ true =
      (==_iff (packet_size x) (packet_size x)).1 refl in
    rw (same, all, long, test) refl

-- What a packet changes, but for the buffer.
record IsNext (x x' : Xmodem) : Type 0 where
  same_flags : x'.flags ≡ x.flags
  in_send : x'.state ≡ send
  same_length : length x'.buffer ≡ length x.buffer
  numbered : x'.packet_num ≡ u16 (x.packet_num + 1)

send_next-acking :
    (x x1 : Xmodem) (file file1 : List ℕ) (log : List (List ℕ))
    → assemble_packet acking x (block_size x) (line file [] log) ≡ (ret 0, x1, line file1 [] log)
    → send_next acking 1 x (line file [] log) ≡ some (send_again acking x1 (line file1 [] log))
unfolding send_next assembled drop_chars
send_next-acking x x1 file file1 log e = ap (assembled acking 1) e

-- A line that is read to its end stays there.
rest-left :
    (size : ℕ) (bytes left : List ℕ) (log : List (List ℕ))
    → (length bytes < size → left ≡ [])
    → rest_of_file acking size bytes (line left [] log) ≡ line left [] log
rest-left size bytes left log ended = elim (Bool-cases (ltb (length bytes) size)) [
  | inl short ↦
      let none_left = ended (ltb→lt (length bytes) size short) in
      rw short (
        ap (λ d. (acking.file_read 1 (line d [] log)).1) none_left
        ∙ ap (λ d. line d [] log) (sym none_left))
  | inr full ↦ rw full refl
]

-- A block of the file becomes a packet.
read_block :
    (x : Xmodem) (b : ℕ) (bytes : List ℕ) (log : List (List ℕ))
    → block_size x + 5 ≤ length x.buffer
    → bit_and x.flags 0x0300 ≢ 0x0300
    → AreBytes (b ∷ bytes)
    → (x' : Xmodem) × (assemble_packet acking x (block_size x) (line (b ∷ bytes) [] log)
        ≡ (ret 0, x', line (drop (block_size x) (b ∷ bytes)) [] log))
      × IsPacket acking x x' (padded (block_size x) (take (block_size x) (b ∷ bytes)))
read_block x b bytes log room one small =
    let size = block_size x in
    let file = b ∷ bytes in
    let left = drop size file in
    let some_bytes = b ∷ take (size - 1) bytes in
    let first : take size file ≡ some_bytes = take-pos size b bytes (block_size_bounds x).0 in
    let short : length some_bytes ≡ min size (length file) =
      ap length (sym first) ∙ length-take size file in
    let ended : length some_bytes < size → left ≡ [] =
      λ lt. drop-all size file (omega (arith, short, lt)) in
    let (x', made, q) =
      assemble_packet_lem acking x (line file [] log) (line left [] log) b (take (size - 1) bytes)
        room one (ap (λ t. (got t, line left [] log)) first) (omega (arith, short))
        (subst AreBytes first (take-AreBytes size file small))
        (λ lt. ap (λ d. (acking.file_read 1 (line d [] log)).0) (ended lt)) in
    (
      x',
      made ∙ ap (λ l. (ret 0, x', l)) (rest-left size some_bytes left log ended),
      subst (λ t. IsPacket acking x x' (padded size t)) (sym first) q,
    )

-- Two ticks send a block, and take its acknowledgement.
send_block :
    (x : Xmodem) (b : ℕ) (bytes : List ℕ) (log : List (List ℕ))
    → block_size x + 5 ≤ length x.buffer
    → bit_and x.flags 0x0300 ≢ 0x0300
    → x.state ≡ send
    → AreBytes (b ∷ bytes)
    → (x' : Xmodem) × (p : List ℕ) × ((n : ℕ)
        → run (suc (suc n)) x (line (b ∷ bytes) [] log)
          ≡ run n x' (line (drop (block_size x) (b ∷ bytes)) [] (log ++ (p ∷ []))))
      × IsNext x x'
      × (unpack (is_crc x) (block_size x) p
          ≡ some (u8 x.packet_num, padded (block_size x) (take (block_size x) (b ∷ bytes))))
send_block x b bytes log room one at small =
    let file = b ∷ bytes in
    let left = drop (block_size x) file in
    let (x1, made, q) = read_block x b bytes log room one small in
    let sizes = same_sizes x x1 q.same_flags in
    let p = take (packet_size x1) x1.buffer in
    let x2 : Xmodem = record x1 { offset = packet_size x1; state = wait_ack; timer = 0 } in
    let fits : packet_size x1 ≤ length x1.buffer =
      omega (arith, packet_size-le x, sizes.1, q.same_length, room) in
    let sent : tx_tick acking 1 x (line file [] log)
        ≡ some (ret 0, x2, line left (xmodem_ack ∷ []) (log ++ (p ∷ []))) =
      tick-in acking 1 x send (line file [] log) (omega (arith, room)) at
      ∙ unfold tick_in in
        send_next-acking x x1 file left log made
        ∙ ap some (send_again-acking x1 left [] log fits) in
    let acked : tx_tick acking 1 x2 (line left (xmodem_ack ∷ []) (log ++ (p ∷ [])))
        ≡ some (next_packet acking x2 (line left [] (log ++ (p ∷ [])))) =
      tick-in acking 1 x2 wait_ack (line left (xmodem_ack ∷ []) (log ++ (p ∷ [])))
        (omega (arith, q.same_length, room)) refl
      ∙ unfold tick_in await_ack in refl in
    (
      (next_packet acking x2 (line left [] (log ++ (p ∷ [])))).1,
      p,
      λ n. run-step (suc n) x x2 _ _ _ sent ∙ run-step n x2 _ _ _ _ acked,
      record {
        same_flags = q.same_flags;
        in_send = refl;
        same_length = q.same_length;
        numbered = ap (λ k. u16 (k + 1)) q.same_packet_num;
      },
      ap (λ k. unpack (is_crc x) (block_size x) (take k x1.buffer)) sizes.1 ∙ q.taken,
    )

header-length : (x : Xmodem) → length (header x).buffer ≡ length x.buffer
unfolding header
header-length x = length-set _ 2 _ ∙ length-set _ 1 _ ∙ length-set x.buffer 0 _

-- Three ticks end a transfer whose file is read.
last_ticks :
    (x : Xmodem) (log : List (List ℕ))
    → 0 < length x.buffer
    → x.state ≡ send
    → (x' : Xmodem) × (run 3 x (line [] [] log)
        ≡ some (x', line [] [] (log ++ ((xmodem_eot ∷ []) ∷ []))))
      × (x'.state ≡ success)
last_ticks x log room at =
    let x1 : Xmodem = record (header x) { state = eof } in
    let x2 : Xmodem = record x1 { state = final_ack; timer = 0 } in
    let room1 : 0 < length x1.buffer = omega (arith, header-length x) in
    let told = log ++ ((xmodem_eot ∷ []) ∷ []) in
    let read : tx_tick acking 1 x (line [] [] log) ≡ some (ret 0, x1, line [] [] log) =
      tick-in acking 1 x send (line [] [] log) room at
      ∙ unfold tick_in send_next assembled assemble_packet in refl in
    let ended : tx_tick acking 1 x1 (line [] [] log)
        ≡ some (ret 0, x2, line [] (xmodem_ack ∷ []) told) =
      tick-in acking 1 x1 eof (line [] [] log) room1 refl ∙ unfold tick_in send_eot in refl in
    let acked : tx_tick acking 1 x2 (line [] (xmodem_ack ∷ []) told)
        ≡ some (ret 1, record x2 { state = success }, line [] [] told) =
      tick-in acking 1 x2 final_ack (line [] (xmodem_ack ∷ []) told) room1 refl
      ∙ unfold tick_in await_ack in refl in
    (
      record x2 { state = success },
      run-step 2 x x1 _ _ _ read
          ∙ run-step 1 x1 x2 _ _ _ ended
          ∙ run-step 0 x2 _ _ _ _ acked
          ∙ unfold run in refl,
      refl,
    )

-- Where a packet's block and the rest of the file make up the file and its padding.
join :
    (size pad : ℕ) (file blocks : List ℕ)
    → 0 < length file
    → pad < size
    → (length (drop size file) ≡ 0 → pad ≡ 0)
    → blocks ≡ drop size file ++ replicate pad 0xFF
    → (gap : ℕ) × (gap < size)
      × (padded size (take size file) ++ blocks ≡ file ++ replicate gap 0xFF)
join size pad file blocks some_bytes small none_left e =
    let first : length (take size file) ≡ min size (length file) = length-take size file in
    let left : length (drop size file) ≡ length file - size = length-drop size file in
    elim (Bool-cases (leb (length file) size)) [
      | inl short ↦
          let fits = leb→le (length file) size short in
          let nothing : drop size file ≡ [] = drop-all size file fits in
          let whole : take size file ≡ file =
            sym (append-nil (take size file))
            ∙ ap (λ l. take size file ++ l) (sym nothing)
            ∙ take-append-drop size file in
          let no_pad : pad ≡ 0 = none_left (omega (arith, left)) in
          let empty : blocks ≡ [] = e ∙ ap₂ (λ l n. l ++ replicate n 0xFF) nothing no_pad in
          (
            size - length file,
            omega arith,
            ap₂ (λ t l. padded size t ++ l) whole empty ∙ append-nil (padded size file),
          )
      | inr long ↦
          let full : size - length (take size file) ≡ 0 = ground (arith, long, first) in
          (
            pad,
            small,
            ap₂ (λ n l. (take size file ++ replicate n 0xFF) ++ l) full e
                ∙ ap (λ t. t ++ (drop size file ++ replicate pad 0xFF))
                    (append-nil (take size file))
                ∙ sym (append_assoc (take size file) (drop size file) (replicate pad 0xFF))
                ∙ ap (λ l. l ++ replicate pad 0xFF) (take-append-drop size file),
          )
    ]

no_bytes : (n pad : ℕ) → suc n ≡ 0 → pad ≡ 0
no_bytes n pad e = absurd (omega arith)

-- A transfer in the state SEND, to its end: two ticks for each block, and three.
pub transfer :
    (k : ℕ) (x : Xmodem) (num : ℕ) (file : List ℕ) (log : List (List ℕ))
    → length file ≤ k * block_size x
    → block_size x + 5 ≤ length x.buffer
    → bit_and x.flags 0x0300 ≢ 0x0300
    → x.state ≡ send
    → u8 x.packet_num ≡ u8 num
    → AreBytes file
    → (n : ℕ) × (x' : Xmodem) × (sent : List (List ℕ)) × (blocks : List ℕ) × (pad : ℕ) × (n
        ≤ 2 * k + 2)
      × (run (suc n) x (line file [] log) ≡ some (x', line [] [] (log ++ sent)))
      × (x'.state ≡ success)
      × (accept (is_crc x) (block_size x) num sent ≡ some blocks)
      × (blocks ≡ file ++ replicate pad 0xFF)
      × (pad < block_size x)
      × (length file ≡ 0 → pad ≡ 0)
transfer k x num [] log blocks room one at same small =
    let (x', went, done) = last_ticks x log (omega arith) at in
    (
      2,
      x',
      (xmodem_eot ∷ []) ∷ [],
      [],
      0,
      omega arith,
      went,
      done,
      unfold accept in refl,
      refl,
      (block_size_bounds x).0,
      λ e. refl,
    )
transfer zero x num (b ∷ bytes) log blocks room one at same small = absurd (omega arith)
transfer (suc k) x num (b ∷ bytes) log blocks room one at same small =
    let file = b ∷ bytes in
    let size = block_size x in
    let (x1, p, two, next, unpacked) = send_block x b bytes log room one at small in
    let sizes = same_sizes x x1 next.same_flags in
    let grow : suc k * size ≡ k * size + size = grind arith in
    let wide : k * block_size x1 ≡ k * size = ap (λ t. k * t) sizes.0 in
    let (n, x', sent, got_blocks, pad, few, went, done, taken, content, padding, none_left) =
      transfer k x1 (num + 1) (drop size file) (log ++ (p ∷ []))
        (omega (arith, grow, wide, sizes.0, length-drop size file, blocks))
        (omega (arith, sizes.0, next.same_length, room))
        (λ e. one (ap (λ f. bit_and f 0x0300) (sym next.same_flags) ∙ e)) next.in_send
        (omega (arith, next.numbered, same)) (drop-AreBytes size file small) in
    let (gap, small_gap, all) =
      join size pad file got_blocks (omega arith) (omega (arith, padding, sizes.0)) none_left
        content in
    let taken' : accept (is_crc x) size (num + 1) sent ≡ some got_blocks =
      ap₂ (λ c t. accept c t (num + 1) sent) (sym sizes.2) (sym sizes.0) ∙ taken in
    (
      suc (suc n),
      x',
      p ∷ sent,
      padded size (take size file) ++ got_blocks,
      gap,
      omega (arith, few),
      two (suc n) ∙ went ∙ ap (λ l. some (x', line [] [] l)) (append_assoc log (p ∷ []) sent),
      done,
      accept-step (is_crc x) size num (u8 x.packet_num) p (padded size (take size file)) got_blocks
          sent unpacked same taken',
      all,
      small_gap,
      λ e. no_bytes (length bytes) gap e,
    )

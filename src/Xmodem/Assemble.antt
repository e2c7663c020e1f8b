-- ===== src/Xmodem/Assemble.antt =====
-- xbee_xmodem.c: `_assemble_packet` puts the next block of the file into a packet.
use xbeepocs.Base.{
  Bool, Bool-cases, List, [], ap, append_assoc, ap₂, arith, bit_and, drop, false, if◌then◌else◌,
  inl, inr, length, length-append, length-drop, length-replicate, length-set, length-splice, ltb,
  ltb→lt, refl, replicate, ret, set, slice, some, splice, suc, sym, take, take-append, true, u8,
  zero, ℕ, ◌++◌, ◌+◌, ◌-◌, ◌<◌, ◌>>>◌, ◌∙◌, ◌∷◌, ◌≡◌, ◌≢◌, ◌≤◌,
}
use xbeepocs.Serial.{got}
use xbeepocs.Crc.{crc16_calc}
use xbeepocs.Crc.Equal.{AreBytes}
use xbeepocs.Xmodem.State.{
  Io, Xmodem, xmodem_soh, xmodem_stx, has, is_crc, block_size, packet_size, sum_bytes, header,
  append_check,
}
use xbeepocs.Xmodem.{fill, from_file, assemble_packet}
use xbeepocs.Xmodem.Packets.{
  splice-at, start_byte, append_check_lem, check, length-check, packet, unpack, unpack-packet,
}

-- A block that is filled up with 0xFF.
abbrev pub padded : ℕ → List ℕ → List ℕ
padded size bytes = bytes ++ replicate (size - length bytes) 0xFF

pub length-padded :
    (size : ℕ) (bytes : List ℕ) → length bytes ≤ size → length (padded size bytes) ≡ size
length-padded size bytes fits = omega (
  arith,
  length-append bytes (replicate (size - length bytes) 0xFF),
  length-replicate {A = ℕ} (size - length bytes) 0xFF,
)

fill-AreBytes : (n : ℕ) → AreBytes (replicate n 0xFF)
fill-AreBytes zero = tt
fill-AreBytes (suc n) = (omega arith, fill-AreBytes n)

append-AreBytes : (xs ys : List ℕ) → AreBytes xs → AreBytes ys → AreBytes (xs ++ ys)
append-AreBytes [] ys xb yb = yb
append-AreBytes (x ∷ xs) ys (b, xb) yb = (b, append-AreBytes xs ys xb yb)

three :
    (buffer : List ℕ)
    → 3 ≤ length buffer
    → (a b c : ℕ) × (rest : List ℕ) × (buffer ≡ a ∷ b ∷ c ∷ rest)
three [] h = absurd (omega arith)
three (a ∷ []) h = absurd (omega arith)
three (a ∷ b ∷ []) h = absurd (omega arith)
three (a ∷ b ∷ c ∷ rest) h = (a, b, c, rest, refl)

append_check-length :
    (x : Xmodem) (size : ℕ) → length (append_check x size).buffer ≡ length x.buffer
unfolding append_check
append_check-length x size =
    let crc = crc16_calc (slice x.buffer 3 size) 0 in
    elim (Bool-cases (is_crc x)) [
      | inl on ↦ rw on (
          length-set (set x.buffer (3 + size) (crc >>> 8)) (4 + size) (bit_and crc 0x00FF)
          ∙ length-set x.buffer (3 + size) (crc >>> 8))
      | inr off ↦ rw off (length-set x.buffer (3 + size) (u8 (sum_bytes 0 (slice x.buffer 3 size))))
    ]

module _ (io : Io) where
  open io use {World, file_read}

  -- Where the file goes on after a block of `n` bytes was asked for, and fewer came.
  abbrev pub rest_of_file : ℕ → List ℕ → World → World
  rest_of_file size bytes w = if ltb (length bytes) size then (file_read 1 w).1 else w

  pub record IsFilled (x x' : Xmodem) (s n c : ℕ) (block : List ℕ) : Type 0 where
    pub same_flags : x'.flags ≡ x.flags
    pub same_packet_num : x'.packet_num ≡ x.packet_num
    pub same_state : x'.state ≡ x.state
    pub same_tries : x'.tries ≡ x.tries
    pub same_length : length x'.buffer ≡ length x.buffer
    pub behind : List ℕ
    pub holds : x'.buffer ≡ packet s n c block (is_crc x) ++ behind

  module _ (x : Xmodem) (s n c : ℕ) (rest bytes : List ℕ) (size : ℕ)
      (e : x.buffer ≡ s ∷ n ∷ c ∷ rest) (fits : length bytes ≤ size) (room : size + 2 ≤ length rest)
      (small : AreBytes bytes) where
    after : List ℕ
    after = drop (size - length bytes) (drop (length bytes) rest)

    stored : splice x.buffer 3 bytes ≡ s ∷ n ∷ c ∷ (bytes ++ drop (length bytes) rest)
    stored = ap (λ b. splice b 3 bytes) e ∙ splice-at (s ∷ n ∷ c ∷ []) rest bytes (omega arith)

    filled :
        splice (splice x.buffer 3 bytes) (3 + length bytes) (replicate (size - length bytes) 0xFF)
        ≡ s ∷ n ∷ c ∷ (padded size bytes ++ after)
    unfolding after
    filled =
        let pad : List ℕ = replicate (size - length bytes) 0xFF in
        let left = drop (length bytes) rest in
        let long : length pad ≡ size - length bytes =
          length-replicate {A = ℕ} (size - length bytes) 0xFF in
        let third : 3 + length bytes ≡ suc (suc (suc (length bytes))) = omega arith in
        let at_end : length pad ≤ length left =
          omega (arith, long, length-drop (length bytes) rest) in
        ap₂ (λ b k. splice b k pad) stored third
        ∙ splice-at (s ∷ n ∷ c ∷ bytes) left pad at_end
        ∙ ap (λ k. s ∷ n ∷ c ∷ (bytes ++ (pad ++ drop k left))) long
        ∙ ap (λ l. s ∷ n ∷ c ∷ l) (sym (append_assoc bytes pad (drop (size - length bytes) left)))

    checked :
        (y : Xmodem)
        → y.buffer ≡ s ∷ n ∷ c ∷ (padded size bytes ++ after)
        → (append_check y size).buffer
          ≡ packet s n c (padded size bytes) (is_crc y) ++ drop (if is_crc y then 2 else 1) after
    unfolding after
    checked y same =
        let block = padded size bytes in
        let long = length-padded size bytes fits in
        let left : length after ≡ length rest - size = omega (
          arith,
          length-drop (size - length bytes) (drop (length bytes) rest),
          length-drop (length bytes) rest,
        ) in
        let bytes' =
          append-AreBytes bytes (replicate (size - length bytes) 0xFF) small
            (fill-AreBytes (size - length bytes)) in
        ap (λ k. (append_check y k).buffer) (sym long)
        ∙ append_check_lem y s n c block after (omega (arith, left)) same bytes'
        ∙ ap (λ l. s ∷ n ∷ c ∷ l)
            (sym (
              append_assoc block (check (is_crc y) block) (drop (if is_crc y then 2 else 1) after)))

    -- A block that is short must be the last of the file.
    pub fill_lem :
        (w : World)
        → (length bytes < size → (file_read 1 w).0 ≡ got [])
        → (x' : Xmodem) × (fill io x size bytes w ≡ (ret 0, x', rest_of_file size bytes w))
          × IsFilled x x' s n c (padded size bytes)
    unfolding fill append_check
    fill_lem w last = elim (Bool-cases (ltb (length bytes) size)) [
      | inl short ↦
          let end = last (ltb→lt (length bytes) size short) in
          let y : Xmodem = record x {
            buffer =
                splice (splice x.buffer 3 bytes) (3 + length bytes)
                  (replicate (size - length bytes) 0xFF);
          } in
          (
            append_check y size,
            rw (short, end) refl,
            record {
              same_flags = refl;
              same_packet_num = refl;
              same_state = refl;
              same_tries = refl;
              same_length =
                  append_check-length y size
                  ∙ length-splice (replicate (size - length bytes) 0xFF) (splice x.buffer 3 bytes)
                      (3 + length bytes)
                  ∙ length-splice bytes x.buffer 3;
              behind = drop (if is_crc y then 2 else 1) after;
              holds = checked y filled;
            },
          )
      | inr full ↦
          let none_left : size - length bytes ≡ 0 = ground (arith, full) in
          let y : Xmodem = record x { buffer = splice x.buffer 3 bytes } in
          let same : y.buffer ≡ s ∷ n ∷ c ∷ (padded size bytes ++ after) =
            ap (λ k. splice (splice x.buffer 3 bytes) (3 + length bytes) (replicate k 0xFF))
              (sym none_left)
            ∙ filled in
          (
            append_check y size,
            rw full refl,
            record {
              same_flags = refl;
              same_packet_num = refl;
              same_state = refl;
              same_tries = refl;
              same_length = append_check-length y size ∙ length-splice bytes x.buffer 3;
              behind = drop (if is_crc y then 2 else 1) after;
              holds = checked y same;
            },
          )
    ]

  assemble_packet-got :
      (x : Xmodem) (size : ℕ) (w w1 : World) (b : ℕ) (bytes : List ℕ)
      → file_read size w ≡ (got (b ∷ bytes), w1)
      → assemble_packet io x size w ≡ fill io (header x) size (b ∷ bytes) w1
  unfolding assemble_packet
  assemble_packet-got x size w w1 b bytes read =
      ap (λ p. from_file io (header x) size p.0 p.1) read ∙ unfold from_file in refl

  five_or_four : (crc : Bool) → (if crc then 5 else 4) ≡ (if crc then 2 else 1) + 3
  five_or_four true = refl
  five_or_four false = refl

  -- A packet with the block stands at the start of the buffer.
  pub record IsPacket (x x' : Xmodem) (block : List ℕ) : Type 0 where
    pub same_flags : x'.flags ≡ x.flags
    pub same_packet_num : x'.packet_num ≡ x.packet_num
    pub same_state : x'.state ≡ x.state
    pub all_tries : x'.tries ≡ 3
    pub same_length : length x'.buffer ≡ length x.buffer
    pub taken :
        unpack (is_crc x) (block_size x) (take (packet_size x) x'.buffer)
        ≡ some (u8 x.packet_num, block)

  -- When the file gives some bytes, at most a block, and fewer than a block only at its end,
  -- `_assemble_packet` puts a packet into a buffer of 5 bytes more than a block, or longer. A
  -- receiver that computes the CRC bit by bit, or adds the bytes up, finds in it the packet's
  -- number and the bytes, filled up with 0xFF to a block.
  pub assemble_packet_lem :
      (x : Xmodem) (w w1 : World) (b : ℕ) (bytes : List ℕ)
      → block_size x + 5 ≤ length x.buffer
      → bit_and x.flags 0x0300 ≢ 0x0300
      → file_read (block_size x) w ≡ (got (b ∷ bytes), w1)
      → length (b ∷ bytes) ≤ block_size x
      → AreBytes (b ∷ bytes)
      → (length (b ∷ bytes) < block_size x → (file_read 1 w1).0 ≡ got [])
      → (x' : Xmodem) × (assemble_packet io x (block_size x) w
          ≡ (ret 0, x', rest_of_file (block_size x) (b ∷ bytes) w1))
        × IsPacket x x' (padded (block_size x) (b ∷ bytes))
  unfolding header packet_size
  assemble_packet_lem x w w1 b bytes room one read fits small last =
      let size = block_size x in
      let (b0, b1, b2, rest, same) = three x.buffer (omega arith) in
      let s = if has 0x0200 x.flags then xmodem_stx else xmodem_soh in
      let n = u8 x.packet_num in
      let y = header x in
      let held : y.buffer ≡ s ∷ n ∷ (0xFF - n) ∷ rest =
        ap (λ l. set (set (set l 0 s) 1 n) 2 (0xFF - n)) same in
      let long : length x.buffer ≡ length rest + 3 = ap length same ∙ omega arith in
      let (x', done, f) =
        fill_lem y s n (0xFF - n) rest (b ∷ bytes) size held fits (omega (arith, long)) small w1
          last in
      let block = padded size (b ∷ bytes) in
      let content = packet s n (0xFF - n) block (is_crc x) in
      let block_long = length-padded size (b ∷ bytes) fits in
      let content_long : packet_size x ≡ length content = omega (
        arith,
        block_long,
        length-append block (check (is_crc x) block),
        length-check (is_crc x) block,
        five_or_four (is_crc x),
      ) in
      let front : take (packet_size x) x'.buffer ≡ content =
        ap₂ take content_long f.holds ∙ take-append content f.behind in
      let taken =
        ap (unpack (is_crc x) size)
          (front ∙ ap (λ t. packet t n (0xFF - n) block (is_crc x)) (start_byte x one))
        ∙ unpack-packet (is_crc x) size n block block_long (omega arith) in
      (
        x',
        assemble_packet-got x size w w1 b bytes read ∙ done,
        record {
          same_flags = f.same_flags;
          same_packet_num = f.same_packet_num;
          same_state = f.same_state;
          all_tries = f.same_tries;
          same_length = f.same_length ∙ ap length held ∙ ap length (sym same);
          taken = taken;
        },
      )

-- ===== src/Xmodem/Session.antt =====
-- xbee_xmodem.c: a session from `xbee_xmodem_tx_init` on.
use xbeepocs.Base.{
  ==_iff, Bool, List, [], ap, ap₂, arith, bit_and, bit_and_digit, bit_and_mask, bit_and_step,
  bit_or, false, holds_below, if◌then◌else◌, length, not, refl, replicate, some, subst, suc, sym,
  true, ℕ, ◌%◌, ◌*◌, ◌++◌, ◌+◌, ◌/◌, ◌<◌, ◌==◌, ◌∙◌, ◌∷◌, ◌≡◌, ◌≢◌, ◌≤◌,
}
use xbeepocs.Crc.Equal.{AreBytes}
use xbeepocs.Xmodem.State.{
  Xmodem, start, send, success, flag_user, has, block_size, xmodem_crc, xmodem_nak, tx_init,
}
use xbeepocs.Xmodem.{await_start, tick_in, tx_tick}
use xbeepocs.Xmodem.Packets.{even_step, size_bits}
use xbeepocs.Xmodem.Line.{acking, line, accept, run, run-same}
use xbeepocs.Xmodem.Transfer.{tick-in, block_size_bounds, transfer}

-- The flags that a user may set.
user_bits : (f : ℕ) → bit_and f flag_user ≡ f / 256 % 4 * 256 + f / 8 % 2 * 8
user_bits f = omega (
  arith,
  even_step f 0x184,
  even_step (f / 2) 0xC2,
  even_step (f / 2 / 2) 0x61,
  low_digit (f / 2 / 2 / 2),
  even_step (f / 2 / 2 / 2 / 2) 0x18,
  even_step (f / 2 / 2 / 2 / 2 / 2) 0xC,
  even_step (f / 2 / 2 / 2 / 2 / 2 / 2) 0x6,
  even_step (f / 2 / 2 / 2 / 2 / 2 / 2 / 2) 0x3,
  bit_and_mask 2 (f / 2 / 2 / 2 / 2 / 2 / 2 / 2 / 2),
)
  where
    low_digit : (n : ℕ) → bit_and n 0x61 ≡ bit_and (n / 2) 0x30 * 2 + n % 2
    low_digit n = omega (arith, bit_and_step n 0x61)

abbrev check_flag : Bool → ℕ
check_flag crc = if crc then 0x0002 else 0x0001

-- The flag of the check is added to such flags, and their block size stays.
abbrev keeps_size : ℕ → ℕ → Bool
keeps_size flag v = bit_and (bit_or (v * 8) flag) 0x0300 == bit_and (v * 8) 0x0300

flagged :
    (crc : Bool) (v : ℕ)
    → v < 128
    → (has 0x0002 (bit_or (v * 8) (check_flag crc)) ≡ crc)
      × (bit_and (bit_or (v * 8) (check_flag crc)) 0x0300 ≡ bit_and (v * 8) 0x0300)
flagged true v lt = (
  holds_below 128 (λ n. has 0x0002 (bit_or (n * 8) 0x0002)) v refl lt,
  (==_iff _ _).0 (holds_below 128 (keeps_size 0x0002) v refl lt),
)
flagged false v lt = (
  rw (holds_below 128 (λ n. bit_and (bit_or (n * 8) 0x0001) 0x0002 == 0) v refl lt) refl,
  (==_iff _ _).0 (holds_below 128 (keeps_size 0x0001) v refl lt),
)

-- The flags of a session, and what the request of the receiver makes of them.
record AreUsed (flags user : ℕ) (crc : Bool) : Type 0 where
  forced : bit_and user 0x0008 ≡ bit_and flags 0x0008
  sized : bit_and user 0x0300 ≡ bit_and flags 0x0300
  checked : has 0x0002 (bit_or user (check_flag crc)) ≡ crc
  still_sized : bit_and (bit_or user (check_flag crc)) 0x0300 ≡ bit_and flags 0x0300

user-AreUsed : (flags : ℕ) (crc : Bool) → AreUsed flags (bit_and flags flag_user) crc
user-AreUsed flags crc =
    let v = flags / 256 % 4 * 32 + flags / 8 % 2 in
    let user = bit_and flags flag_user in
    let eight : user ≡ v * 8 = omega (arith, user_bits flags) in
    let (on, size) = flagged crc v (omega arith) in
    let sized : bit_and user 0x0300 ≡ bit_and flags 0x0300 =
      omega (arith, (size_bits user).0, (size_bits flags).0, user_bits flags) in
    record {
      forced = omega (arith, bit_and_digit 3 user, bit_and_digit 3 flags, user_bits flags);
      sized = sized;
      checked = ap (λ u. has 0x0002 (bit_or u (check_flag crc))) eight ∙ on;
      still_sized =
          ap (λ u. bit_and (bit_or u (check_flag crc)) 0x0300) eight
          ∙ size
          ∙ ap (λ u. bit_and u 0x0300) (sym eight)
          ∙ sized;
    }

same_block :
    (x y : Xmodem) → bit_and y.flags 0x0300 ≡ bit_and x.flags 0x0300 → block_size y ≡ block_size x
unfolding block_size
same_block x y e = rw e

enough_blocks : (x : Xmodem) (n : ℕ) → n ≤ (n / block_size x + 1) * block_size x
unfolding block_size
enough_blocks x n = ground arith

-- What the receiver sends to ask for a file.
abbrev pub request : Bool → ℕ
request crc = if crc then xmodem_crc else xmodem_nak

-- The tick that gets the request goes on as one in the state SEND does.
asked :
    (crc : Bool) (x : Xmodem) (file : List ℕ) (log : List (List ℕ))
    → x.state ≡ start
    → 0 < length x.buffer
    → (crc ≡ false → bit_and x.flags 0x0008 ≡ 0)
    → let x' : Xmodem = record x {
      flags = bit_or x.flags (check_flag crc);
      state = send;
      packet_num = 1;
    } in
      tx_tick acking 1 x (line file (request crc ∷ []) log) ≡ tx_tick acking 1 x' (line file [] log)
asked true x file log at room free =
    tick-in acking 1 x start (line file (request true ∷ []) log) room at
    ∙ unfold tick_in await_start in
      refl
      ∙ sym (
          tick-in acking 1 (record x { flags = bit_or x.flags 2; state = send; packet_num = 1 })
            send (line file [] log) room refl)
asked false x file log at room free =
    let clear : bit_and x.flags 0x0008 ≡ 0 = free refl in
    let unforced : has 0x0008 x.flags ≡ false = ap (λ n. not (n == 0)) clear in
    tick-in acking 1 x start (line file (request false ∷ []) log) room at
    ∙ unfold tick_in await_start in
      rw unforced refl
      ∙ sym (
          tick-in acking 1 (record x { flags = bit_or x.flags 1; state = send; packet_num = 1 })
            send (line file [] log) room refl)

-- A session after `xbee_xmodem_tx_init`, to a receiver that asks for packets with CRC, or with
-- checksum where the flags do not force the CRC, and then acknowledges all that is written to it:
-- it ends in the state SUCCESS, after at most two ticks for each block and five more. A receiver
-- that checks every packet, with a CRC by bits, and expects the numbers 1, 2, ... modulo 256 before
-- EOT, has then got the file, filled up with fewer bytes 0xFF than a block has. The flags select
-- at most one other size than 128 for a block, and the buffer holds 1029 bytes or more.
pub tx_session_lem :
    (x : Xmodem) (flags : ℕ) (crc : Bool) (file : List ℕ) (log : List (List ℕ))
    → 1029 ≤ length x.buffer
    → bit_and flags 0x0300 ≢ 0x0300
    → (crc ≡ false → bit_and flags 0x0008 ≡ 0)
    → AreBytes file
    → let x0 = (tx_init x flags).1 in
      (n : ℕ) × (x' : Xmodem) × (sent : List (List ℕ)) × (pad : ℕ) × (n
        ≤ 2 * (length file / block_size x0) + 5)
      × (run n x0 (line file (request crc ∷ []) log) ≡ some (x', line [] [] (log ++ sent)))
      × (x'.state ≡ success)
      × (accept crc (block_size x0) 1 sent ≡ some (file ++ replicate pad 0xFF))
      × (pad < block_size x0)
unfolding tx_init
tx_session_lem x flags crc file log room one free small =
    let x0 : Xmodem = record x { flags = bit_and flags flag_user; packet_num = 0; state = start } in
    let x1 : Xmodem = record x0 {
      flags = bit_or x0.flags (check_flag crc);
      state = send;
      packet_num = 1;
    } in
    let u = user-AreUsed flags crc in
    let size : block_size x1 ≡ block_size x0 = same_block x0 x1 (u.still_sized ∙ sym u.sized) in
    let count = length file / block_size x0 + 1 in
    let enough : length file ≤ count * block_size x1 =
      subst (λ s. length file ≤ count * s) (sym size) (enough_blocks x0 (length file)) in
    let (n, x', sent, blocks, pad, few, went, done, taken, content, padding, _) =
      transfer count x1 1 file log enough (omega (arith, (block_size_bounds x1).1, room))
        (λ e. one (sym u.still_sized ∙ e)) refl refl small in
    let ask = asked crc x0 file log refl (omega (arith, room)) (λ e. u.forced ∙ free e) in
    (
      suc n,
      x',
      sent,
      pad,
      omega (arith, few),
      run-same n x0 x1 (line file (request crc ∷ []) log) (line file [] log) ask ∙ went,
      done,
      ap₂ (λ c s. accept c s 1 sent) (sym u.checked) (sym size) ∙ taken ∙ ap some content,
      omega (arith, padding, size),
    )

-- ===== src/Xmodem/Packets.antt =====
-- xbee_xmodem.c: what a packet holds.
use xbeepocs.Base.{
  ==_iff, Bool, Bool-cases, List, Option, [], ap, append_assoc, arith, bit_and, bit_and_digit,
  bit_and_mask, bit_and_step, drop, drop-append, false, if◌then◌else◌, inl, inr, length,
  length-append, none, refl, set, some, splice, suc, sym, take, take-append, true, u16, u8, ℕ, ◌%◌,
  ◌&&◌, ◌*◌, ◌++◌, ◌+◌, ◌-◌, ◌/◌, ◌<◌, ◌==◌, ◌^◌, ◌∙◌, ◌∷◌, ◌≡◌, ◌≢◌, ◌≤◌,
}
use xbeepocs.Crc.{crc_bit}
use xbeepocs.Crc.Equal.{AreBytes, crc16_calc_lem}
use xbeepocs.Xmodem.State.{
  Xmodem, xmodem_soh, xmodem_stx, has, is_crc, block_size, sum_bytes, append_check,
}

set-at {ℓ} : {A : Type ℓ} (a b : List A) (y x : A) → set (a ++ (y ∷ b)) (length a) x ≡ a ++ (x ∷ b)
set-at [] b y x = refl
set-at (z ∷ a) b y x = ap (λ r. z ∷ r) (set-at a b y x)

-- A write right behind `a`.
pub splice-at {ℓ} :
    {A : Type ℓ} (a b xs : List A)
    → length xs ≤ length b
    → splice (a ++ b) (length a) xs ≡ a ++ (xs ++ drop (length xs) b)
splice-at a b [] h = refl
splice-at a [] (x ∷ xs) h = absurd (omega arith)
splice-at a (y ∷ b) (x ∷ xs) h =
    ap (λ l. splice l (suc (length a)) xs) (set-at a b y x ∙ sym (append_assoc a (x ∷ []) b))
    ∙ ap (λ n. splice ((a ++ (x ∷ [])) ++ b) n xs) (omega (arith, length-append a (x ∷ [])))
    ∙ splice-at (a ++ (x ∷ [])) b xs (omega arith)
    ∙ append_assoc a (x ∷ []) (xs ++ drop (length xs) b)

pub sum : List ℕ → ℕ
sum [] = 0
sum (b ∷ bytes) = b + sum bytes

sum_bytes-sum : (n : ℕ) (bytes : List ℕ) → u8 (sum_bytes n bytes) ≡ u8 (n + sum bytes)
unfolding sum sum_bytes
sum_bytes-sum n [] = omega arith
sum_bytes-sum n (b ∷ bytes) = omega (arith, sum_bytes-sum (u16 (n + b)) bytes)

-- The end of a packet: the CRC of the block, computed bit by bit with the polynomial of XMODEM, or
-- the sum of its bytes.
abbrev pub check : Bool → List ℕ → List ℕ
check true block = crc_bit 0x1021 0 block / 256 ∷ crc_bit 0x1021 0 block % 256 ∷ []
check false block = u8 (sum block) ∷ []

pub same_list : List ℕ → List ℕ → Bool
same_list [] [] = true
same_list [] (y ∷ ys) = false
same_list (x ∷ xs) [] = false
same_list (x ∷ xs) (y ∷ ys) = (x == y) && same_list xs ys

same_list_self : (xs : List ℕ) → same_list xs xs ≡ true
unfolding same_list
same_list_self [] = refl
same_list_self (x ∷ xs) = ground (arith, same_list_self xs)

-- A receiver's view of a packet: its number and its block, if all checks are passed.
unfoldable pub unpack : Bool → ℕ → List ℕ → Option (ℕ × List ℕ)
unfolding same_list
unpack crc size (start ∷ number ∷ inverse ∷ rest) =
    if (start == (if size == 1024 then xmodem_stx else xmodem_soh))
      && (number + inverse == 0xFF)
      && same_list (drop size rest) (check crc (take size rest))
    then some (number, take size rest)
    else none
unpack crc size short = none

pub even_step : (x m : ℕ) → bit_and x (m * 2) ≡ bit_and (x / 2) m * 2
even_step x m =
    let half : bit_and (x / 2) (m * 2 / 2) ≡ bit_and (x / 2) m =
      ap (bit_and (x / 2)) (omega arith) in
    omega (arith, bit_and_step x (m * 2), half)

-- The two bits of the block size, as digits of the flags.
pub size_bits :
    (f : ℕ) → (bit_and f 0x0300 ≡ f / 256 % 4 * 256) × (bit_and f 0x0200 ≡ f / 512 % 2 * 512)
size_bits f = (
  omega (
    arith,
    even_step f 0x180,
    even_step (f / 2) 0xC0,
    even_step (f / 2 / 2) 0x60,
    even_step (f / 2 / 2 / 2) 0x30,
    even_step (f / 2 / 2 / 2 / 2) 0x18,
    even_step (f / 2 / 2 / 2 / 2 / 2) 0xC,
    even_step (f / 2 / 2 / 2 / 2 / 2 / 2) 0x6,
    even_step (f / 2 / 2 / 2 / 2 / 2 / 2 / 2) 0x3,
    bit_and_mask 2 (f / 2 / 2 / 2 / 2 / 2 / 2 / 2 / 2),
  ),
  bit_and_digit 9 f,
)

-- The first byte of a packet is the one for its size, but where both bits of the size are set.
pub start_byte :
    (x : Xmodem)
    → bit_and x.flags 0x0300 ≢ 0x0300
    → (if has 0x0200 x.flags then xmodem_stx else xmodem_soh)
      ≡ (if block_size x == 1024 then xmodem_stx else xmodem_soh)
unfolding block_size
start_byte x one = ground (arith, (size_bits x.flags).0, (size_bits x.flags).1)

-- The check is written right behind the block.
module _ (s n c : ℕ) (block rest : List ℕ) where
  with_crc :
      (hi lo : ℕ)
      → 2 ≤ length rest
      → set (set (s ∷ n ∷ c ∷ (block ++ rest)) (3 + length block) hi) (4 + length block) lo
        ≡ s ∷ n ∷ c ∷ (block ++ (hi ∷ lo ∷ drop 2 rest))
  with_crc hi lo room =
      let third : 3 + length block ≡ suc (suc (suc (length block))) = omega arith in
      let fourth : 4 + length block ≡ suc (suc (suc (suc (length block)))) = omega arith in
      rw (third, fourth) (splice-at (s ∷ n ∷ c ∷ block) rest (hi ∷ lo ∷ []) room)

  with_sum :
      (sum : ℕ)
      → 1 ≤ length rest
      → set (s ∷ n ∷ c ∷ (block ++ rest)) (3 + length block) sum
        ≡ s ∷ n ∷ c ∷ (block ++ (sum ∷ drop 1 rest))
  with_sum sum room =
      let third : 3 + length block ≡ suc (suc (suc (length block))) = omega arith in
      rw third (splice-at (s ∷ n ∷ c ∷ block) rest (sum ∷ []) room)

-- What `append_check` makes of a buffer that holds a block.
pub append_check_lem :
    (x : Xmodem) (s n c : ℕ) (block rest : List ℕ)
    → 2 ≤ length rest
    → x.buffer ≡ s ∷ n ∷ c ∷ (block ++ rest)
    → AreBytes block
    → (append_check x (length block)).buffer
      ≡ s ∷ n ∷ c ∷ (block ++ (check (is_crc x) block ++ drop (if is_crc x then 2 else 1) rest))
unfolding append_check
append_check_lem x s n c block rest room e bytes =
    let crc = crc_bit 0x1021 0 block in
    let same = crc16_calc_lem block 0 (omega arith) bytes in
    let plain_sum : u8 (sum_bytes 0 block) ≡ u8 (sum block) =
      omega (arith, sum_bytes-sum 0 block) in
    elim (Bool-cases (is_crc x)) [
      | inl on ↦
          rw (on, e, take-append block rest, same, bit_and_mask 8 crc)
            (with_crc s n c block rest (crc / 256) (crc % 256) room)
      | inr off ↦
          rw (off, e, take-append block rest, plain_sum)
            (with_sum s n c block rest (u8 (sum block)) (omega arith))
    ]

-- A packet as it is sent: what `take` leaves of the buffer.
abbrev pub packet : ℕ → ℕ → ℕ → List ℕ → Bool → List ℕ
packet s n c block crc = s ∷ n ∷ c ∷ (block ++ check crc block)

pub length-check : (crc : Bool) (block : List ℕ) → length (check crc block) ≡ (if crc then 2 else 1)
length-check true block = refl
length-check false block = refl

-- The receiver takes a packet apart again.
pub unpack-packet :
    (crc : Bool) (size n : ℕ) (block : List ℕ)
    → length block ≡ size
    → n < 2 ^ 8
    → unpack crc size
        (packet (if size == 1024 then xmodem_stx else xmodem_soh) n (0xFF - n) block crc)
      ≡ some (n, block)
unfolding unpack
unpack-packet crc size n block e lt =
    let start = if length block == 1024 then xmodem_stx else xmodem_soh in
    let one : (start == start) ≡ true = (==_iff start start).1 refl in
    let two : (n + (0xFF - n) == 0xFF) ≡ true = ground arith in
    rw
      (
        ← e,
        one,
        two,
        take-append block (check crc block),
        drop-append block (check crc block),
        same_list_self (check crc block),
      )
      refl

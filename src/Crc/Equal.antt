-- ===== src/Crc/Equal.antt =====
-- The CRCs by tables against the CRCs by bits.
use native.Mathlib.Nat.{mod-eq_of_lt, mod-lt, one-le-pow}
use xbeepocs.Base.{
  Bool, List, [], all_below, ap, ap₂, arith, bit_and, bit_and_mask, bit_xor, bit_xor-div,
  bit_xor-mod, bit_xor_comm, get_or, holds_below, ltb, ltb→lt, refl, subst, sym, true, u16,
  zero-bit_xor, ℕ, ◌%◌, ◌*◌, ◌/◌, ◌<◌, ◌^◌, ◌∙◌, ◌∷◌, ◌≡◌,
}
use xbeepocs.Crc.Tables.{table_byte, crc16_table}
use xbeepocs.Crc.{bit_steps, crc_bit, crc16buypass_bit, crc16buypass_byte, crc16_calc}
use xbeepocs.Crc.Bytes.{
  looks_up, shifts, buypass_table, buypass_shifts, xmodem_table, xmodem_shifts, bit_steps-table,
}

-- Every element is a byte.
abbrev pub AreBytes : List ℕ → Type 0
AreBytes [] = Unit
AreBytes (b ∷ bytes) = (b < 2 ^ 8) × AreBytes bytes

bit_xor_bound : (k x y : ℕ) → x < 2 ^ k → y < 2 ^ k → bit_xor x y < 2 ^ k
bit_xor_bound k x y lx ly =
    let same : bit_xor x y % 2 ^ k ≡ bit_xor x y =
      bit_xor-mod k x y ∙ ap₂ bit_xor (mod-eq_of_lt lx) (mod-eq_of_lt ly) in
    subst (λ n. n < 2 ^ k) same (mod-lt (bit_xor x y) (one-le-pow k 2 (omega arith)))

-- One byte by the table: a shift, and the entry at the high byte.
one_byte :
    (poly : ℕ) (table : List ℕ) (crc b : ℕ)
    → poly < 2 ^ 16
    → looks_up poly table ≡ true
    → shifts poly ≡ true
    → crc < 2 ^ 16
    → b < 2 ^ 8
    → bit_steps poly 8 (u16 (bit_xor crc (b * 2 ^ 8)))
      ≡ bit_xor (crc % 2 ^ 8 * 2 ^ 8) (get_or table (bit_xor (crc / 2 ^ 8) b) 0)
one_byte poly table crc b small table_ok shift_ok lt byte =
    let x = bit_xor crc (b * 2 ^ 8) in
    let bound = bit_xor_bound 16 crc (b * 2 ^ 8) lt (omega arith) in
    let whole : u16 x ≡ x = omega (arith, bound) in
    let high : x / 2 ^ 8 ≡ bit_xor (crc / 2 ^ 8) b =
      bit_xor-div 8 crc (b * 2 ^ 8) ∙ ap (bit_xor (crc / 2 ^ 8)) (omega arith) in
    let low : x % 2 ^ 8 ≡ crc % 2 ^ 8 =
      bit_xor-mod 8 crc (b * 2 ^ 8)
      ∙ ap (bit_xor (crc % 2 ^ 8)) (omega arith)
      ∙ bit_xor_comm (crc % 2 ^ 8) 0
      ∙ zero-bit_xor (crc % 2 ^ 8) in
    ap (bit_steps poly 8) whole
    ∙ bit_steps-table poly table x small table_ok shift_ok bound
    ∙ ap₂ (λ l h. bit_xor (l * 2 ^ 8) (get_or table h 0)) low high

abbrev fits : List ℕ → Bool
fits table = all_below 256 (λ h. ltb (get_or table h 0) (2 ^ 16))

-- The byte's turn of the loops by tables, with the index `h` as they compute it.
table_turn :
    (poly : ℕ) (table : List ℕ) (crc b h : ℕ)
    → poly < 2 ^ 16
    → looks_up poly table ≡ true
    → shifts poly ≡ true
    → fits table ≡ true
    → crc < 2 ^ 16
    → b < 2 ^ 8
    → h ≡ bit_xor (crc / 2 ^ 8) b
    → u16 (bit_xor (crc * 2 ^ 8) (get_or table h 0))
      ≡ bit_steps poly 8 (u16 (bit_xor crc (b * 2 ^ 8)))
table_turn poly table crc b h small table_ok shift_ok fit_ok lt byte same =
    let index : h < 256 =
      subst (λ n. n < 256) (sym same) (bit_xor_bound 8 (crc / 2 ^ 8) b (omega arith) byte) in
    let entry : get_or table h 0 < 2 ^ 16 =
      ltb→lt (get_or table h 0) (2 ^ 16)
        (holds_below 256 (λ n. ltb (get_or table n 0) (2 ^ 16)) h fit_ok index) in
    bit_xor-mod 16 (crc * 2 ^ 8) (get_or table h 0)
    ∙ ap₂ bit_xor (omega arith) (mod-eq_of_lt entry)
    ∙ ap (λ n. bit_xor (crc % 2 ^ 8 * 2 ^ 8) (get_or table n 0)) same
    ∙ sym (one_byte poly table crc b small table_ok shift_ok lt byte)

masked :
    (crc b : ℕ)
    → crc < 2 ^ 16
    → b < 2 ^ 8
    → bit_and (bit_xor (crc / 2 ^ 8) b) 0xff ≡ bit_xor (crc / 2 ^ 8) b
masked crc b lt byte =
    bit_and_mask 8 (bit_xor (crc / 2 ^ 8) b)
    ∙ mod-eq_of_lt (bit_xor_bound 8 (crc / 2 ^ 8) b (omega arith) byte)

-- On bytes and a 16-bit start value, `crc16buypass_byte`, which looks up a table, and
-- `crc16buypass_bit`, which divides by the polynomial 0x8005 bit by bit, are the same function.
pub crc16buypass_byte_lem :
    (bytes : List ℕ) (crc : ℕ)
    → crc < 2 ^ 16
    → AreBytes bytes
    → crc16buypass_byte crc bytes ≡ crc16buypass_bit crc bytes
unfolding crc16buypass_byte crc16buypass_bit crc_bit
crc16buypass_byte_lem [] crc lt all = refl
crc16buypass_byte_lem (b ∷ bytes) crc lt (byte, all) =
    let turn =
      table_turn 0x8005 table_byte crc b (bit_and (bit_xor (crc / 2 ^ 8) b) 0xff) (omega arith)
        buypass_table buypass_shifts refl lt byte (masked crc b lt byte) in
    let next =
      u16 (bit_xor (crc * 2 ^ 8) (get_or table_byte (bit_and (bit_xor (crc / 2 ^ 8) b) 0xff) 0)) in
    crc16buypass_byte_lem bytes next (omega arith) all ∙ ap (λ c. crc_bit 0x8005 c bytes) turn

-- On bytes and a 16-bit start value, `crc16_calc` divides by the polynomial 0x1021: it is the CRC
-- computed bit by bit.
pub crc16_calc_lem :
    (bytes : List ℕ) (current : ℕ)
    → current < 2 ^ 16
    → AreBytes bytes
    → crc16_calc bytes current ≡ crc_bit 0x1021 current bytes
unfolding crc16_calc crc_bit
crc16_calc_lem [] current lt all = refl
crc16_calc_lem (b ∷ bytes) current lt (byte, all) =
    let turn =
      table_turn 0x1021 crc16_table current b (bit_xor (current / 2 ^ 8) b) (omega arith)
        xmodem_table xmodem_shifts refl lt byte refl in
    let next =
      u16 (bit_xor (current * 2 ^ 8) (get_or crc16_table (bit_xor (current / 2 ^ 8) b) 0)) in
    crc16_calc_lem bytes next (omega arith) all ∙ ap (λ c. crc_bit 0x1021 c bytes) turn

-- ===== src/Crc/Tests.antt =====
-- The CRCs of the text "123456789".
use xbeepocs.Base.{List, [], arith, refl, ℕ, ◌∷◌, ◌≡◌}
use xbeepocs.Crc.{crc_bit, crc16buypass_byte, crc16_calc}
use xbeepocs.Crc.Equal.{AreBytes, crc16_calc_lem}

abbrev text : List ℕ
text = 49 ∷ 50 ∷ 51 ∷ 52 ∷ 53 ∷ 54 ∷ 55 ∷ 56 ∷ 57 ∷ []

text-AreBytes : AreBytes text
text-AreBytes = (
  omega arith,
  (
    omega arith,
    (
      omega arith,
      (omega arith, (omega arith, (omega arith, (omega arith, (omega arith, (omega arith, _)))))),
    ),
  ),
)

buypass_check : crc16buypass_byte 0 text ≡ 0xfee8
unfolding crc16buypass_byte
buypass_check = refl

xmodem_check : crc16_calc text 0 ≡ 0x31C3
unfolding crc16_calc
xmodem_check = refl

crc16_calc_lem_example : crc16_calc text 0xFFFF ≡ crc_bit 0x1021 0xFFFF text
crc16_calc_lem_example = crc16_calc_lem text 0xFFFF (omega arith) text-AreBytes

-- ===== src/Address/Tests.antt =====
-- The text of addresses.
use xbeepocs.Base.{
  List, [], arith, einval, fail, false, refl, replicate, ret, some, true, ℕ, ◌&&◌, ◌==◌, ◌∷◌, ◌≡◌,
}
use xbeepocs.Address.{
  digit, hexstrtobyte, skip_spaces, skip_separator, parse_bytes, addr64_format, addr64_parse,
}
use xbeepocs.Address.Text.{addr64_parse-format}

-- "00-13-a2-00-40-5e-0e-f0"
abbrev module_tail : List ℕ
module_tail = 0xA2 ∷ 0 ∷ 0x40 ∷ 0x5E ∷ 0x0E ∷ 0xF0 ∷ []

-- Upper and lower case, and separators where there are any.
parses_mixed :
    addr64_parse (
      some (
        32 ∷ 48 ∷ 49 ∷ 58 ∷ 97 ∷ 66 ∷ 48 ∷ 48 ∷ 48 ∷ 48 ∷ 45 ∷ 48 ∷ 48 ∷ 48 ∷ 48 ∷ 48 ∷ 48 ∷ 102
        ∷ 70 ∷ []))
    ≡ (ret 0, 0x01 ∷ 0xAB ∷ 0 ∷ 0 ∷ 0 ∷ 0 ∷ 0 ∷ 0xFF ∷ [])
unfolding addr64_parse parse_bytes skip_spaces skip_separator hexstrtobyte digit
parses_mixed = refl

addr64_parse-format_example :
    let lead : ℕ = 0x13 in
    ((0 == 0 && lead == 0) ≡ false
      → addr64_parse (some (addr64_format (0 ∷ lead ∷ module_tail)))
        ≡ (ret 0, 0 ∷ lead ∷ module_tail))
    × ((0 == 0 && lead == 0) ≡ true
        → addr64_parse (some (addr64_format (0 ∷ lead ∷ module_tail)))
          ≡ (fail einval, replicate 8 0))
addr64_parse-format_example =
    addr64_parse-format 0 0x13 module_tail
      (
        omega arith,
        (
          omega arith,
          (
            omega arith,
            (omega arith, (omega arith, (omega arith, (omega arith, (omega arith, _))))),
          ),
        ),
      )
      refl

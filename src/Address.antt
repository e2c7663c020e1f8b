-- ===== src/Address.antt =====
-- libraries/xbee_ansic_library/src/wpan/wpan_types.c and src/util/hexstrtobyte.c: 64-bit addresses
-- and their text. A string is its characters, with or without its terminator.
pub mod Text
mod Tests
use xbeepocs.Base.{
  Bool, List, Option, Ret, [], drop, einval, fail, get_or, if◌then◌else◌, leb, ltb, none, not,
  replicate, ret, some, suc, zero, ℕ, ◌%◌, ◌&&◌, ◌*◌, ◌+◌, ◌-◌, ◌/◌, ◌==◌, ◌||◌, ◌∷◌,
}

-- The value of a hexadecimal digit.
unfoldable pub digit : ℕ → Option ℕ
digit ch =
    if leb 48 ch && leb ch 57
    then some (ch - 48)
    else if leb 97 ch && leb ch 102
    then some (ch - 87)
    else if leb 65 ch && leb ch 70
    then some (ch - 55)
    else none

-- `none` is -1.
unfoldable pub hexstrtobyte : List ℕ → Option ℕ
hexstrtobyte p = elim (digit (get_or p 0 0)) [
  | none ↦ none
  | some hi ↦ elim (digit (get_or p 1 0)) [ none ↦ none | some lo ↦ some (hi * 16 + lo) ]
]

-- "0123456789abcdef"[n]
unfoldable pub hex_char : ℕ → ℕ
hex_char n = if ltb n 10 then 48 + n else 87 + n

-- '-'
abbrev pub separator : ℕ
separator = 45

-- The loop of `addr64_format`, with the terminator.
unfoldable pub format_bytes : List ℕ → List ℕ
unfolding hex_char
format_bytes [] = []
format_bytes (b ∷ []) = hex_char (b / 16) ∷ hex_char (b % 16) ∷ 0 ∷ []
format_bytes (b ∷ c ∷ bytes) =
    hex_char (b / 16) ∷ hex_char (b % 16) ∷ separator ∷ format_bytes (c ∷ bytes)

-- An address that starts with two zero bytes is written as a 48-bit one.
unfoldable pub addr64_format : List ℕ → List ℕ
unfolding format_bytes
addr64_format address =
    if get_or address 0 0 == 0 && get_or address 1 0 == 0
    then format_bytes (drop 2 address)
    else format_bytes address

abbrev pub is_space : ℕ → Bool
is_space ch = ch == 32 || leb 9 ch && leb ch 13

abbrev pub is_xdigit : ℕ → Bool
is_xdigit ch = leb 48 ch && leb ch 57 || leb 97 ch && leb ch 102 || leb 65 ch && leb ch 70

unfoldable pub skip_spaces : List ℕ → List ℕ
skip_spaces [] = []
skip_spaces (ch ∷ str) = if is_space ch then skip_spaces str else ch ∷ str

-- One character that is no digit and no terminator is passed over.
unfoldable pub skip_separator : List ℕ → List ℕ
skip_separator [] = []
skip_separator (ch ∷ str) = if not (ch == 0) && not (is_xdigit ch) then str else ch ∷ str

-- The loop of `addr64_parse`; `none` is the `break`.
unfoldable pub parse_bytes : ℕ → List ℕ → Option (List ℕ)
parse_bytes zero str = some []
parse_bytes (suc i) str = elim (hexstrtobyte str) [
  | none ↦ none
  | some b ↦ elim (parse_bytes i (skip_separator (drop 2 str))) [
    | none ↦ none
    | some bytes ↦ some (b ∷ bytes)
  ]
]

-- A null string is `none`; the address is zeroed where the conversion fails.
unfoldable pub addr64_parse : Option (List ℕ) → Ret × List ℕ
addr64_parse none = (fail einval, replicate 8 0)
addr64_parse (some str) = elim (parse_bytes 8 (skip_spaces str)) [
  | none ↦ (fail einval, replicate 8 0)
  | some bytes ↦ (ret 0, bytes)
]

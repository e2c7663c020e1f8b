-- ===== src/Address/Text.antt =====
-- `addr64_parse` reads what `addr64_format` wrote.
use xbeepocs.Base.{
  Bool-cases, List, [], ap, arith, drop, einval, fail, false, inl, inr, leb, length, ltb, none, not,
  refl, replicate, ret, some, suc, sym, true, ℕ, ◌%◌, ◌&&◌, ◌*◌, ◌+◌, ◌/◌, ◌<◌, ◌==◌, ◌^◌, ◌∙◌, ◌∷◌,
  ◌≡◌,
}
use xbeepocs.Address.{
  digit, hexstrtobyte, hex_char, separator, format_bytes, addr64_format, is_space, is_xdigit,
  skip_spaces, skip_separator, parse_bytes, addr64_parse,
}

-- Byte values.
abbrev pub AreBytes : List ℕ → Type 0
AreBytes [] = Unit
AreBytes (b ∷ bytes) = (b < 2 ^ 8) × AreBytes bytes

digit-hex_char : (n : ℕ) → n < 16 → digit (hex_char n) ≡ some n
unfolding digit hex_char
digit-hex_char n lt = elim (Bool-cases (ltb n 10)) [
  | inl low ↦
      let a : (leb 48 (48 + n) && leb (48 + n) 57) ≡ true = ground (arith, low) in
      rw (low, a) (ap some (omega arith))
  | inr high ↦
      let a : (leb 48 (87 + n) && leb (87 + n) 57) ≡ false = ground (arith, high) in
      let b : (leb 97 (87 + n) && leb (87 + n) 102) ≡ true = ground (arith, high) in
      rw (high, a, b) (ap some (omega arith))
]

hexstrtobyte-hex_char :
    (b : ℕ) (rest : List ℕ)
    → b < 2 ^ 8
    → hexstrtobyte (hex_char (b / 16) ∷ hex_char (b % 16) ∷ rest) ≡ some b
unfolding hexstrtobyte
hexstrtobyte-hex_char b rest lt =
    let whole : b / 16 * 16 + b % 16 ≡ b = omega arith in
    rw (hexstrtobyte, digit-hex_char (b / 16) (omega arith), digit-hex_char (b % 16) (omega arith))
      (ap some whole)

-- A digit is no space, and no separator.
hex_char-IsSolid :
    (n : ℕ)
    → n < 16
    → (is_space (hex_char n) ≡ false)
      × ((not (hex_char n == 0) && not (is_xdigit (hex_char n))) ≡ false)
unfolding hex_char
hex_char-IsSolid n lt = (ground arith, ground arith)

-- The text of at least one byte starts with a digit.
skips-format_bytes :
    (b : ℕ) (bytes : List ℕ)
    → b < 2 ^ 8
    → (skip_spaces (format_bytes (b ∷ bytes)) ≡ format_bytes (b ∷ bytes))
      × (skip_separator (format_bytes (b ∷ bytes)) ≡ format_bytes (b ∷ bytes))
unfolding format_bytes skip_spaces skip_separator
skips-format_bytes b [] lt =
    let (space, sep) = hex_char-IsSolid (b / 16) (omega arith) in (rw space, rw sep)
skips-format_bytes b (c ∷ bytes) lt =
    let (space, sep) = hex_char-IsSolid (b / 16) (omega arith) in (rw space, rw sep)

parse_step :
    (i b : ℕ) (str rest bytes : List ℕ)
    → hexstrtobyte str ≡ some b
    → skip_separator (drop 2 str) ≡ rest
    → parse_bytes i rest ≡ some bytes
    → parse_bytes (suc i) str ≡ some (b ∷ bytes)
unfolding parse_bytes
parse_step i b str rest bytes e f g = rw (parse_bytes, e, f, g)

fail_step :
    (i b : ℕ) (str rest : List ℕ)
    → hexstrtobyte str ≡ some b
    → skip_separator (drop 2 str) ≡ rest
    → parse_bytes i rest ≡ none
    → parse_bytes (suc i) str ≡ none
unfolding parse_bytes
fail_step i b str rest e f g = rw (parse_bytes, e, f, g)

parse_bytes-format_bytes :
    (b : ℕ) (bytes : List ℕ)
    → AreBytes (b ∷ bytes)
    → parse_bytes (suc (length bytes)) (format_bytes (b ∷ bytes)) ≡ some (b ∷ bytes)
unfolding format_bytes skip_separator parse_bytes
parse_bytes-format_bytes b [] (lt, _) =
    parse_step 0 b _ (0 ∷ []) [] (hexstrtobyte-hex_char b (0 ∷ []) lt) refl refl
parse_bytes-format_bytes b (c ∷ bytes) (lt, more) =
    parse_step (suc (length bytes)) b _ (format_bytes (c ∷ bytes)) (c ∷ bytes)
      (hexstrtobyte-hex_char b (separator ∷ format_bytes (c ∷ bytes)) lt) refl
      (parse_bytes-format_bytes c bytes more)

-- More bytes are wanted than the text has.
parse_bytes-short :
    (k b : ℕ) (bytes : List ℕ)
    → AreBytes (b ∷ bytes)
    → parse_bytes (suc (length bytes + suc k)) (format_bytes (b ∷ bytes)) ≡ none
unfolding format_bytes skip_separator
parse_bytes-short k b [] (lt, _) =
    fail_step (length {A = ℕ} [] + suc k) b _ (0 ∷ []) (hexstrtobyte-hex_char b (0 ∷ []) lt) refl
      (ap (λ i. parse_bytes i (0 ∷ [])) (omega arith) ∙ ends)
  where
    ends : parse_bytes (suc k) (0 ∷ []) ≡ none
    ends = unfold parse_bytes hexstrtobyte digit in refl
parse_bytes-short k b (c ∷ bytes) (lt, more) =
    fail_step (suc (length bytes) + suc k) b _ (format_bytes (c ∷ bytes))
      (hexstrtobyte-hex_char b (separator ∷ format_bytes (c ∷ bytes)) lt) refl
      (ap (λ i. parse_bytes i (format_bytes (c ∷ bytes))) (omega arith)
        ∙ parse_bytes-short k c bytes more)

-- The text of an address of eight bytes is read back as the address, but for one that starts with
-- two zero bytes: its text is too short, and is refused with -EINVAL and an address of zeros.
pub addr64_parse-format :
    (a b : ℕ) (bytes : List ℕ)
    → AreBytes (a ∷ b ∷ bytes)
    → length bytes ≡ 6
    → ((a == 0 && b == 0) ≡ false
        → addr64_parse (some (addr64_format (a ∷ b ∷ bytes))) ≡ (ret 0, a ∷ b ∷ bytes))
      × ((a == 0 && b == 0) ≡ true
          → addr64_parse (some (addr64_format (a ∷ b ∷ bytes))) ≡ (fail einval, replicate 8 0))
unfolding addr64_parse addr64_format
addr64_parse-format a b [] bytes_ok six = absurd (omega arith)
addr64_parse-format a b (c ∷ bytes) (la, (lb, more)) six = (whole, short)
  where
    whole :
        (a == 0 && b == 0) ≡ false
        → addr64_parse (some (addr64_format (a ∷ b ∷ c ∷ bytes))) ≡ (ret 0, a ∷ b ∷ c ∷ bytes)
    whole e =
        let eight : suc (length (b ∷ c ∷ bytes)) ≡ 8 = omega arith in
        let text = format_bytes (a ∷ b ∷ c ∷ bytes) in
        let back : parse_bytes 8 (skip_spaces text) ≡ some (a ∷ b ∷ c ∷ bytes) =
          ap (parse_bytes 8) (skips-format_bytes a (b ∷ c ∷ bytes) la).0
          ∙ ap (λ i. parse_bytes i text) (sym eight)
          ∙ parse_bytes-format_bytes a (b ∷ c ∷ bytes) (la, (lb, more)) in
        rw (e, addr64_parse, back)

    short :
        (a == 0 && b == 0) ≡ true
        → addr64_parse (some (addr64_format (a ∷ b ∷ c ∷ bytes))) ≡ (fail einval, replicate 8 0)
    short e =
        let text = format_bytes (c ∷ bytes) in
        let eight : suc (length bytes + suc 1) ≡ 8 = omega arith in
        let back : parse_bytes 8 (skip_spaces text) ≡ none =
          ap (parse_bytes 8) (skips-format_bytes c bytes more.0).0
          ∙ ap (λ i. parse_bytes i text) (sym eight)
          ∙ parse_bytes-short 1 c bytes more in
        rw (e, addr64_parse, back)

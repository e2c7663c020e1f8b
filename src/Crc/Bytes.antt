-- ===== src/Crc/Bytes.antt =====
-- The step by bits is linear, so eight of them are one look into the table.
use xbeepocs.Base.{
  ==_iff, Bool, List, all_below, ap, ap₂, arith, bit_and, bit_and_digit, bit_xor, bit_xor-div,
  bit_xor-mod, bit_xor_assoc, bit_xor_comm, bit_xor_fields, bit_xor_self, bit_xor_step, false,
  get_or, holds_below, refl, suc, sym, true, u16, zero, zero-bit_xor, ℕ, ◌%◌, ◌*◌, ◌/◌, ◌<◌, ◌==◌,
  ◌^◌, ◌∙◌, ◌≡◌,
}
use xbeepocs.Crc.Tables.{table_byte, crc16_table}
use xbeepocs.Crc.{bit_step, bit_steps}

-- What the table must hold, and that the low byte is only shifted: tests on 256 numbers.
abbrev pub looks_up : ℕ → List ℕ → Bool
looks_up poly table = all_below 256 (λ h. bit_steps poly 8 (h * 2 ^ 8) == get_or table h 0)

abbrev pub shifts : ℕ → Bool
shifts poly = all_below 256 (λ l. bit_steps poly 8 l == l * 2 ^ 8)

pub buypass_table : looks_up 0x8005 table_byte ≡ true
buypass_table = refl

pub buypass_shifts : shifts 0x8005 ≡ true
buypass_shifts = refl

pub xmodem_table : looks_up 0x1021 crc16_table ≡ true
xmodem_table = refl

pub xmodem_shifts : shifts 0x1021 ≡ true
xmodem_shifts = refl

double : ℕ → ℕ
double x = u16 (x * 2)

-- The bit that is shifted out.
top : ℕ → ℕ
top x = x / 2 ^ 15 % 2

-- What is added for it.
feedback : ℕ → ℕ → ℕ
feedback poly zero = 0
feedback poly (suc t) = poly

bit_step-double :
    (poly x : ℕ) → poly < 2 ^ 16 → bit_step poly x ≡ bit_xor (double x) (feedback poly (top x))
unfolding double top feedback
bit_step-double poly x small = go (x / 2 ^ 15 % 2) refl (omega arith)
  where
    go :
        (t : ℕ)
        → x / 2 ^ 15 % 2 ≡ t
        → t < 2
        → bit_step poly x ≡ bit_xor (u16 (x * 2)) (feedback poly t)
    go zero e lt =
        let test : (bit_and x 0x8000 == 0) ≡ true = ground (arith, bit_and_digit 15 x, e) in
        rw test (sym (bit_xor_comm (u16 (x * 2)) 0 ∙ zero-bit_xor (u16 (x * 2))))
    go (suc zero) e lt =
        let test : (bit_and x 0x8000 == 0) ≡ false = ground (arith, bit_and_digit 15 x, e) in
        rw test (bit_xor-mod 16 (x * 2) poly ∙ ap (bit_xor (u16 (x * 2))) (omega arith))
    go (suc (suc t)) e lt = absurd (omega arith)

double-bit_xor : (x y : ℕ) → double (bit_xor x y) ≡ bit_xor (double x) (double y)
unfolding double
double-bit_xor x y =
    let halves : bit_xor (x * 2 / 2) (y * 2 / 2) ≡ bit_xor x y =
      ap₂ bit_xor (omega arith) (omega arith) in
    let twice : bit_xor x y * 2 ≡ bit_xor (x * 2) (y * 2) =
      omega (arith, bit_xor_step (x * 2) (y * 2), halves) in
    ap u16 twice ∙ bit_xor-mod 16 (x * 2) (y * 2)

top-bit_xor : (x y : ℕ) → top (bit_xor x y) ≡ bit_xor (top x) (top y)
unfolding top
top-bit_xor x y = ap (λ n. n % 2) (bit_xor-div 15 x y) ∙ bit_xor-mod 1 (x / 2 ^ 15) (y / 2 ^ 15)

feedback-bit_xor :
    (poly a b : ℕ)
    → a < 2
    → b < 2
    → feedback poly (bit_xor a b) ≡ bit_xor (feedback poly a) (feedback poly b)
unfolding feedback
feedback-bit_xor poly zero zero la lb = refl
feedback-bit_xor poly zero (suc zero) la lb = sym (zero-bit_xor poly)
feedback-bit_xor poly (suc zero) zero la lb = sym (bit_xor_comm poly 0 ∙ zero-bit_xor poly)
feedback-bit_xor poly (suc zero) (suc zero) la lb = sym (bit_xor_self poly)
feedback-bit_xor poly zero (suc (suc b)) la lb = absurd (omega arith)
feedback-bit_xor poly (suc zero) (suc (suc b)) la lb = absurd (omega arith)
feedback-bit_xor poly (suc (suc a)) b la lb = absurd (omega arith)

exchange : (a b c d : ℕ) → bit_xor (bit_xor a b) (bit_xor c d) ≡ bit_xor (bit_xor a c) (bit_xor b d)
exchange a b c d =
    bit_xor_assoc a b (bit_xor c d)
    ∙ ap (bit_xor a)
        (sym (bit_xor_assoc b c d) ∙ ap (λ m. bit_xor m d) (bit_xor_comm b c) ∙ bit_xor_assoc c b d)
    ∙ sym (bit_xor_assoc a c (bit_xor b d))

bit_steps-bit_xor :
    (poly n x y : ℕ)
    → poly < 2 ^ 16
    → bit_steps poly n (bit_xor x y) ≡ bit_xor (bit_steps poly n x) (bit_steps poly n y)
bit_steps-bit_xor poly zero x y small = refl
bit_steps-bit_xor poly (suc n) x y small =
    ap (bit_steps poly n) one ∙ bit_steps-bit_xor poly n (bit_step poly x) (bit_step poly y) small
  where
    one : bit_step poly (bit_xor x y) ≡ bit_xor (bit_step poly x) (bit_step poly y)
    one =
        bit_step-double poly (bit_xor x y) small
        ∙ ap₂ bit_xor (double-bit_xor x y) (
            ap (feedback poly) (top-bit_xor x y)
            ∙ feedback-bit_xor poly (top x) (top y) (unfold top in omega arith)
                (unfold top in omega arith))
        ∙ exchange (double x) (double y) (feedback poly (top x)) (feedback poly (top y))
        ∙ sym (ap₂ bit_xor (bit_step-double poly x small) (bit_step-double poly y small))

-- Eight steps are one look into a table that holds them, and a shift.
pub bit_steps-table :
    (poly : ℕ) (table : List ℕ) (x : ℕ)
    → poly < 2 ^ 16
    → looks_up poly table ≡ true
    → shifts poly ≡ true
    → x < 2 ^ 16
    → bit_steps poly 8 x ≡ bit_xor (x % 2 ^ 8 * 2 ^ 8) (get_or table (x / 2 ^ 8) 0)
bit_steps-table poly table x small table_ok shift_ok lt =
    let high = x / 2 ^ 8 in
    let low = x % 2 ^ 8 in
    let split : x ≡ bit_xor low (high * 2 ^ 8) =
      omega arith
      ∙ sym (bit_xor_fields 8 high low (omega arith))
      ∙ bit_xor_comm (high * 2 ^ 8) low in
    let looked : bit_steps poly 8 (high * 2 ^ 8) ≡ get_or table high 0 =
      (==_iff (bit_steps poly 8 (high * 2 ^ 8)) (get_or table high 0)).0 (
        holds_below 256 (λ h. bit_steps poly 8 (h * 2 ^ 8) == get_or table h 0) high table_ok
          (omega arith)) in
    let shifted : bit_steps poly 8 low ≡ low * 2 ^ 8 =
      (==_iff (bit_steps poly 8 low) (low * 2 ^ 8)).0
        (holds_below 256 (λ l. bit_steps poly 8 l == l * 2 ^ 8) low shift_ok (omega arith)) in
    ap (bit_steps poly 8) split
    ∙ bit_steps-bit_xor poly 8 low (high * 2 ^ 8) small
    ∙ ap₂ bit_xor shifted looked

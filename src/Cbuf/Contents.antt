-- ===== src/Cbuf/Contents.antt =====
-- The queue that a circular buffer holds, and what writes to the array do to it.
use native.Mathlib.Nat.{mod-eq_of_lt, mod-eq-sub-mod, add-mod_right, add-zero, zero-add, suc-add}
use xbeepocs.Base.{
  List, [], ap, ap₂, arith, drop, drop_cons, get_or, get_or-splice_outside, inl, inr, length,
  length-splice, refl, slice, slice-splice, splice, subst, suc, take, zero, ℕ, ◌%◌, ◌++◌, ◌+◌, ◌-◌,
  ◌<◌, ◌∙◌, ◌∷◌, ◌≡◌, ◌≤◌, ◌⊎◌,
}
use native.Mathlib.Decide.{dec_lt}
use xbeepocs.Cbuf.{Cbuf, used}

-- The `n` bytes from index `s` on, round the end of an array of `size` bytes.
abbrev pub cyclic : List ℕ → ℕ → ℕ → ℕ → List ℕ
cyclic buf size s zero = []
cyclic buf size s (suc n) = get_or buf (s % size) 0 ∷ cyclic buf size (s + 1) n

-- The stored bytes, oldest first.
abbrev pub contents : Cbuf → List ℕ
contents c = cyclic c.bytes (c.mask + 1) c.head (used c)

pub length-cyclic : (buf : List ℕ) (size s n : ℕ) → length (cyclic buf size s n) ≡ n
length-cyclic buf size s zero = refl
length-cyclic buf size s (suc n) = ap suc (length-cyclic buf size (s + 1) n)

pub cyclic-add :
    (buf : List ℕ) (size s n m : ℕ)
    → cyclic buf size s (n + m) ≡ cyclic buf size s n ++ cyclic buf size (s + n) m
cyclic-add buf size s zero m = rw (zero-add, add-zero)
cyclic-add buf size s (suc n) m = rw suc-add (
    ap (λ r. get_or buf (s % size) 0 ∷ r)
      (cyclic-add buf size (s + 1) n m
        ∙ ap (λ t. cyclic buf size (s + 1) n ++ cyclic buf size t m) (omega arith)))

-- Only the index modulo the size counts.
pub cyclic_shift :
    (buf : List ℕ) (size s n : ℕ) → cyclic buf size (s + size) n ≡ cyclic buf size s n
cyclic_shift buf size s zero = refl
cyclic_shift buf size s (suc n) =
    ap₂ (λ i r. get_or buf i 0 ∷ r) (add-mod_right s size)
      (ap (λ t. cyclic buf size t n) (omega arith) ∙ cyclic_shift buf size (s + 1) n)

-- Within the array no index goes round.
pub cyclic_straight :
    (buf : List ℕ) (size s n : ℕ)
    → s + n ≤ size
    → size ≤ length buf
    → cyclic buf size s n ≡ slice buf s n
cyclic_straight buf size s zero h f = refl
cyclic_straight buf size s (suc n) h f =
    rw (mod-eq_of_lt {n = s} {m = size} (omega arith), drop_cons buf s 0 (omega arith))
      (ap (λ r. get_or buf s 0 ∷ r)
        (cyclic_straight buf size (s + 1) n (omega arith) f
          ∙ ap (λ t. take n (drop t buf)) {y = suc s} (omega arith)))

-- Two arrays that agree on the indices of a window hold the same bytes there.
pub cyclic_agree :
    (a b : List ℕ) (size s n : ℕ)
    → ((i : ℕ) → i < n → get_or a ((s + i) % size) 0 ≡ get_or b ((s + i) % size) 0)
    → cyclic a size s n ≡ cyclic b size s n
cyclic_agree a b size s zero h = refl
cyclic_agree a b size s (suc n) h = ap₂ ◌∷◌ (rw add-zero at (h 0 (omega arith))) (
    cyclic_agree a b size (s + 1) n (λ i lt.
      subst (λ t. get_or a (t % size) 0 ≡ get_or b (t % size) 0) {x = s + suc i} (omega arith)
        (h (suc i) (omega arith))))

-- An index below twice the size is reduced by at most one subtraction.
reduced :
    (x size : ℕ)
    → x < size + size
    → ((x < size) × (x % size ≡ x)) ⊎ ((size ≤ x) × (x % size ≡ x - size))
reduced x size h = elim (dec_lt x size) [
  | yes p ↦ inl (p, mod-eq_of_lt p)
  | no p ↦ inr (
    omega arith,
    mod-eq-sub-mod {n = x} {m = size} (omega arith)
        ∙ mod-eq_of_lt {n = x - size} {m = size} (omega arith),
  )
]

-- Bytes written outside a window leave it alone.
pub cyclic_keep :
    (buf xs : List ℕ) (size s u off : ℕ)
    → s < size
    → (s + u ≡ off) ⊎ (s + u ≡ off + size)
    → off + length xs ≤ size
    → u + length xs ≤ size
    → cyclic (splice buf off xs) size s u ≡ cyclic buf size s u
cyclic_keep buf xs size s u off hs at_off fits_array fits =
    cyclic_agree (splice buf off xs) buf size s u λ i lt.
      get_or-splice_outside xs buf off ((s + i) % size) 0
        (omega (arith, reduced (s + i) size (omega arith)))

-- Bytes written just past a window extend it, if they stay within the array and leave the
-- window alone.
pub cyclic_extend :
    (buf xs : List ℕ) (size s u off : ℕ)
    → s < size
    → (s + u ≡ off) ⊎ (s + u ≡ off + size)
    → off + length xs ≤ size
    → u + length xs ≤ size
    → size ≤ length buf
    → cyclic (splice buf off xs) size s (u + length xs) ≡ cyclic buf size s u ++ xs
cyclic_extend buf xs size s u off hs at_off fits_array fits room =
    cyclic-add (splice buf off xs) size s u (length xs)
    ∙ ap₂ ◌++◌ (cyclic_keep buf xs size s u off hs at_off fits_array fits) after
  where
    placed : cyclic (splice buf off xs) size off (length xs) ≡ xs
    placed =
        cyclic_straight (splice buf off xs) size off (length xs) fits_array
          (omega (arith, length-splice xs buf off))
        ∙ slice-splice xs buf off 0 (omega arith)

    after : cyclic (splice buf off xs) size (s + u) (length xs) ≡ xs
    after = elim at_off [
      | inl e ↦ rw e placed
      | inr e ↦ rw e (cyclic_shift (splice buf off xs) size off (length xs) ∙ placed)
    ]

-- A window starts with every shorter window from the same index.
pub take-cyclic :
    (buf : List ℕ) (size s n u : ℕ) → n ≤ u → take n (cyclic buf size s u) ≡ cyclic buf size s n
take-cyclic buf size s zero u h = refl
take-cyclic buf size s (suc n) zero h = absurd (omega arith)
take-cyclic buf size s (suc n) (suc u) h =
    ap (λ r. get_or buf (s % size) 0 ∷ r) (take-cyclic buf size (s + 1) n u (omega arith))

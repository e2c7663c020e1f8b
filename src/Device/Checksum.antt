-- ===== src/Device/Checksum.antt =====
-- `_xbee_checksum`: what the last byte of a frame says of the others.
use xbeepocs.Base.{List, [], arith, refl, sub_u8, u8, ℕ, ◌%◌, ◌++◌, ◌+◌, ◌<◌, ◌∙◌, ◌∷◌, ◌≡◌, ◌≢◌}
use xbeepocs.Device.{checksum}

-- The sum of the bytes, as numbers.
abbrev pub total : List ℕ → ℕ
total [] = 0
total (b ∷ bytes) = u8 b + total bytes

pub checksum-append : (xs ys : List ℕ) (i : ℕ) → checksum (xs ++ ys) i ≡ checksum ys (checksum xs i)
unfolding checksum
checksum-append [] ys i = refl
checksum-append (x ∷ xs) ys i = checksum-append xs ys (sub_u8 i (u8 x))

pub checksum-lt : (bytes : List ℕ) (i : ℕ) → i < 256 → checksum bytes i < 256
unfolding checksum
checksum-lt [] i h = h
checksum-lt (b ∷ bytes) i h = checksum-lt bytes (sub_u8 i (u8 b)) (omega arith)

-- Added to the bytes that it was computed from, a checksum gives back the starting value, modulo
-- 256; it is the only byte value that does.
pub checksum_lem :
    (bytes : List ℕ) (i : ℕ)
    → i < 256
    → ((checksum bytes i + total bytes) % 256 ≡ i)
      × ((x : ℕ) → x < 256 → (x + total bytes) % 256 ≡ i → x ≡ checksum bytes i)
checksum_lem bytes i h = (sums bytes i h, λ x lt e. unique x lt e)
  where
    sums : (l : List ℕ) (j : ℕ) → j < 256 → (checksum l j + total l) % 256 ≡ j
    sums [] j lt = unfold checksum in omega arith
    sums (b ∷ l) j lt =
        let next = sums l (sub_u8 j (u8 b)) (omega arith) in
        let step : checksum (b ∷ l) j ≡ checksum l (sub_u8 j (u8 b)) = unfold checksum in refl in
        omega (arith, next, step)

    unique : (x : ℕ) → x < 256 → (x + total bytes) % 256 ≡ i → x ≡ checksum bytes i
    unique x lt e = omega (arith, sums bytes i h, checksum-lt bytes i h)

-- A frame with its checksum byte passes the test of the receiver.
pub checksum_verifies : (bytes : List ℕ) → checksum (bytes ++ (checksum bytes 0xFF ∷ [])) 0xFF ≡ 0
checksum_verifies bytes =
    checksum-append bytes (checksum bytes 0xFF ∷ []) 0xFF
    ∙ self (checksum bytes 0xFF) (checksum-lt bytes 0xFF (omega arith))
  where
    self : (c : ℕ) → c < 256 → checksum (c ∷ []) c ≡ 0
    self c lt = unfold checksum in omega arith

-- Changing one byte of a frame that passed to another byte value makes the test fail.
pub checksum_detects :
    (before after : List ℕ) (x y : ℕ)
    → x < 256
    → y < 256
    → x ≢ y
    → checksum (before ++ (x ∷ after)) 0xFF ≡ 0
    → checksum (before ++ (y ∷ after)) 0xFF ≢ 0
checksum_detects before after x y hx hy ne good bad = absurd (
    omega (
      arith,
      checksum_lem (before ++ (x ∷ after)) 0xFF (omega arith),
      checksum_lem (before ++ (y ∷ after)) 0xFF (omega arith),
      total-append before (x ∷ after),
      total-append before (y ∷ after),
      good,
      bad,
    ))
  where
    total-append : (xs ys : List ℕ) → total (xs ++ ys) ≡ total xs + total ys
    total-append [] ys = omega arith
    total-append (z ∷ xs) ys = omega (arith, total-append xs ys)

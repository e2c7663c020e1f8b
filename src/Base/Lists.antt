-- ===== src/Base/Lists.antt =====
-- Lists measured and indexed by native numbers, under the library's names.
use Prim.Native.Nat.{ℕ, zero, suc, ◌+◌, ◌-◌, ◌<◌, ◌≤◌, min}
use mathlib.Core.Path.{◌≡◌, refl, ap, ap₂, ◌∙◌, subst}
use mathlib.Core.Logic.{◌≢◌, ◌⊎◌}
use mathlib.Core.List.{List, [], ◌∷◌, ◌++◌, map}
use mathlib.Core.Option.{Option, none, some}
use native.Mathlib.Omega.{arith}

module _ {ℓ} {A : Type ℓ} where
  abbrev pub length : List A → ℕ
  length [] = 0
  length (x ∷ xs) = suc (length xs)

  abbrev pub get_elem? : List A → ℕ → Option A
  get_elem? [] i = none
  get_elem? (x ∷ xs) zero = some x
  get_elem? (x ∷ xs) (suc i) = get_elem? xs i

  -- A write out of bounds changes nothing.
  abbrev pub set : List A → ℕ → A → List A
  set [] i v = []
  set (x ∷ xs) zero v = v ∷ xs
  set (x ∷ xs) (suc i) v = x ∷ set xs i v

  pub length-append : (xs ys : List A) → length (xs ++ ys) ≡ length xs + length ys
  length-append [] ys = omega arith
  length-append (x ∷ xs) ys = omega (arith, length-append xs ys)

module _ {ℓ} {A : Type ℓ} where
  pub length-set : (xs : List A) (i : ℕ) (v : A) → length (set xs i v) ≡ length xs
  length-set [] i v = refl
  length-set (x ∷ xs) zero v = refl
  length-set (x ∷ xs) (suc i) v = ap suc (length-set xs i v)

  pub get_elem?-set_self :
      (xs : List A) (i : ℕ) (v : A) → i < length xs → get_elem? (set xs i v) i ≡ some v
  get_elem?-set_self [] i v h = elim h [ ]
  get_elem?-set_self (x ∷ xs) zero v h = refl
  get_elem?-set_self (x ∷ xs) (suc i) v h = get_elem?-set_self xs i v (omega arith)

  pub get_elem?-set_ne :
      (xs : List A) {i j : ℕ} (v : A) → i ≢ j → get_elem? (set xs i v) j ≡ get_elem? xs j
  get_elem?-set_ne [] v h = refl
  get_elem?-set_ne (x ∷ xs) {i = zero} {j = zero} v h = absurd (h refl)
  get_elem?-set_ne (x ∷ xs) {i = zero} {j = suc j} v h = refl
  get_elem?-set_ne (x ∷ xs) {i = suc i} {j = zero} v h = refl
  get_elem?-set_ne (x ∷ xs) {i = suc i} {j = suc j} v h = get_elem?-set_ne xs v (λ e. h (ap suc e))

module _ {ℓ} {A : Type ℓ} where
  abbrev pub get_or : List A → ℕ → A → A
  get_or [] i d = d
  get_or (x ∷ xs) zero d = x
  get_or (x ∷ xs) (suc i) d = get_or xs i d

  abbrev pub take : ℕ → List A → List A
  take zero xs = []
  take (suc n) [] = []
  take (suc n) (x ∷ xs) = x ∷ take n xs

  abbrev pub drop : ℕ → List A → List A
  drop zero xs = xs
  drop (suc n) [] = []
  drop (suc n) (x ∷ xs) = drop n xs

  abbrev pub replicate : ℕ → A → List A
  replicate zero a = []
  replicate (suc n) a = a ∷ replicate n a

  pub take-append-drop : (n : ℕ) (xs : List A) → take n xs ++ drop n xs ≡ xs
  take-append-drop zero xs = refl
  take-append-drop (suc n) [] = refl
  take-append-drop (suc n) (x ∷ xs) = rw (take-append-drop n xs)

  pub take-append : (xs ys : List A) → take (length xs) (xs ++ ys) ≡ xs
  take-append [] ys = refl
  take-append (x ∷ xs) ys = ap (λ r. x ∷ r) (take-append xs ys)

  pub drop-append : (xs ys : List A) → drop (length xs) (xs ++ ys) ≡ ys
  drop-append [] ys = refl
  drop-append (x ∷ xs) ys = drop-append xs ys

  pub take-take : (m n : ℕ) (xs : List A) → m ≤ n → take m (take n xs) ≡ take m xs
  take-take zero n xs h = refl
  take-take (suc m) zero xs h = absurd (omega arith)
  take-take (suc m) (suc n) [] h = refl
  take-take (suc m) (suc n) (x ∷ xs) h = ap (λ r. x ∷ r) (take-take m n xs (omega arith))

  pub length-take : (n : ℕ) (xs : List A) → length (take n xs) ≡ min n (length xs)
  length-take zero xs = omega arith
  length-take (suc n) [] = omega arith
  length-take (suc n) (x ∷ xs) = omega (arith, length-take n xs)

  pub length-drop : (n : ℕ) (xs : List A) → length (drop n xs) ≡ length xs - n
  length-drop zero xs = omega arith
  length-drop (suc n) [] = omega arith
  length-drop (suc n) (x ∷ xs) = omega (arith, length-drop n xs)

  pub length-replicate : (n : ℕ) (a : A) → length (replicate n a) ≡ n
  length-replicate zero a = refl
  length-replicate (suc n) a = ap suc (length-replicate n a)

  pub length-map {κ} : {B : Type κ} (xs : List A) (f : A → B) → length (map f xs) ≡ length xs
  length-map [] f = refl
  length-map (x ∷ xs) f = ap suc (length-map xs f)

module _ {ℓ} {A : Type ℓ} where
  -- `memcpy` of a whole list to offset `off` of an array.
  abbrev pub splice : List A → ℕ → List A → List A
  splice buf off [] = buf
  splice buf off (x ∷ xs) = splice (set buf off x) (suc off) xs

  -- `n` elements from offset `off`: what a `memcpy` out of an array reads.
  abbrev pub slice : List A → ℕ → ℕ → List A
  slice buf off n = take n (drop off buf)

  pub length-splice : (xs buf : List A) (off : ℕ) → length (splice buf off xs) ≡ length buf
  length-splice [] buf off = refl
  length-splice (x ∷ xs) buf off =
      omega (arith, length-splice xs (set buf off x) (suc off), length-set buf off x)

  pub get_or-set_self :
      (xs : List A) (i : ℕ) (v d : A) → i < length xs → get_or (set xs i v) i d ≡ v
  get_or-set_self [] i v d h = absurd (omega arith)
  get_or-set_self (x ∷ xs) zero v d h = refl
  get_or-set_self (x ∷ xs) (suc i) v d h = get_or-set_self xs i v d (omega arith)

  pub get_or-past : (xs : List A) (i : ℕ) (d : A) → length xs ≤ i → get_or xs i d ≡ d
  get_or-past [] i d h = refl
  get_or-past (x ∷ xs) zero d h = absurd (omega arith)
  get_or-past (x ∷ xs) (suc i) d h = get_or-past xs i d (omega arith)

  pub get_or-set_ne :
      (xs : List A) (i j : ℕ) (v d : A) → i ≢ j → get_or (set xs i v) j d ≡ get_or xs j d
  get_or-set_ne [] i j v d h = refl
  get_or-set_ne (x ∷ xs) zero zero v d h = absurd (h refl)
  get_or-set_ne (x ∷ xs) zero (suc j) v d h = refl
  get_or-set_ne (x ∷ xs) (suc i) zero v d h = refl
  get_or-set_ne (x ∷ xs) (suc i) (suc j) v d h = get_or-set_ne xs i j v d (λ e. h (ap suc e))

  pub get_or-splice_outside :
      (xs buf : List A) (off j : ℕ) (d : A)
      → (j < off) ⊎ (off + length xs ≤ j)
      → get_or (splice buf off xs) j d ≡ get_or buf j d
  get_or-splice_outside [] buf off j d h = refl
  get_or-splice_outside (x ∷ xs) buf off j d h =
      get_or-splice_outside xs (set buf off x) (suc off) j d (omega arith)
      ∙ get_or-set_ne buf off j x d (omega arith)

  pub get_or-splice_inside :
      (xs buf : List A) (off j : ℕ) (d : A)
      → j < length xs
      → off + length xs ≤ length buf
      → get_or (splice buf off xs) (off + j) d ≡ get_or xs j d
  get_or-splice_inside [] buf off j d h f = absurd (omega arith)
  get_or-splice_inside (x ∷ xs) buf off zero d h f = ground (
    arith,
    get_or-splice_outside xs (set buf off x) (suc off) (off + 0) d,
    get_or-set_self buf off x d,
  )
  get_or-splice_inside (x ∷ xs) buf off (suc j) d h f =
      subst (λ k. get_or (splice (set buf off x) (suc off) xs) k d ≡ get_or xs j d) (omega arith)
        (get_or-splice_inside xs (set buf off x) (suc off) j d (omega arith)
          (omega (arith, length-set buf off x)))

  pub drop_cons :
      (xs : List A) (i : ℕ) (d : A) → i < length xs → drop i xs ≡ get_or xs i d ∷ drop (suc i) xs
  drop_cons [] i d h = absurd (omega arith)
  drop_cons (x ∷ xs) zero d h = refl
  drop_cons (x ∷ xs) (suc i) d h = drop_cons xs i d (omega arith)

  -- What was copied in is what is there to be copied out.
  pub slice-splice :
      (xs buf : List A) (off : ℕ) (d : A)
      → off + length xs ≤ length buf
      → slice (splice buf off xs) off (length xs) ≡ xs
  slice-splice [] buf off d h = refl
  slice-splice (x ∷ xs) buf off d h =
      let inner = splice (set buf off x) (suc off) xs in
      let fits : off < length inner =
        omega (arith, length-splice xs (set buf off x) (suc off), length-set buf off x) in
      let first : get_or inner off d ≡ x =
        get_or-splice_outside xs (set buf off x) (suc off) off d (omega arith)
        ∙ get_or-set_self buf off x d (omega arith) in
      ap (take (suc (length xs))) (drop_cons inner off d fits)
      ∙ ap₂ ◌∷◌ first
          (slice-splice xs (set buf off x) (suc off) d (omega (arith, length-set buf off x)))

  pub take-append-take-drop :
      (i n : ℕ) (xs : List A) → i ≤ n → take i xs ++ take (n - i) (drop i xs) ≡ take n xs
  take-append-take-drop zero n xs h = ap (λ k. take k xs) (omega arith)
  take-append-take-drop (suc i) zero xs h = absurd (omega arith)
  take-append-take-drop (suc i) (suc n) [] h = take-nil (suc n - suc i)
    where
      take-nil : (k : ℕ) → take {A = A} k [] ≡ []
      take-nil zero = refl
      take-nil (suc k) = refl
  take-append-take-drop (suc i) (suc n) (x ∷ xs) h =
      ap (λ r. x ∷ r)
        (ap (λ k. take i xs ++ take k (drop i xs)) (omega arith)
          ∙ take-append-take-drop i n xs (omega arith))

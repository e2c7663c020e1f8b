-- ===== src/Xmodem/Line.antt =====
-- A line to a receiver that acknowledges all that it gets, and what that receiver reads.
use xbeepocs.Base.{
  ==_iff, Bool, List, Option, Ret, [], ap, arith, drop, enodata, if◌then◌else◌, length, none, refl,
  ret, some, suc, take, true, u8, zero, ℕ, ◌++◌, ◌+◌, ◌-◌, ◌<◌, ◌==◌, ◌∷◌, ◌≡◌, ◌≤◌,
}
use xbeepocs.Serial.{Read, got, failed}
use xbeepocs.Crc.Equal.{AreBytes}
use xbeepocs.Xmodem.State.{Io, Xmodem, xmodem_ack, xmodem_eot}
use xbeepocs.Xmodem.{tx_tick}
use xbeepocs.Xmodem.Packets.{unpack}

-- The two ends of the line: what is left of the file, what the receiver has answered, and all that
-- was written, in order.
pub record Line : Type 0 where
  pub file : List ℕ
  pub replies : List ℕ
  pub log : List (List ℕ)

abbrev pub serve : Read → ℕ → List ℕ → Read × List ℕ
serve empty n [] = (empty, [])
serve empty n (b ∷ bytes) = (got (take n (b ∷ bytes)), drop n (b ∷ bytes))

abbrev reply_read : ℕ → Line → Read × Line
reply_read n l =
    let (r, rest) = serve (failed enodata) n l.replies in (r, record l { replies = rest })

abbrev line_read : ℕ → Line → Read × Line
line_read n l = let (r, rest) = serve (got []) n l.file in (r, record l { file = rest })

-- Whatever is written is acknowledged.
abbrev line_write : List ℕ → Line → Ret × Line
line_write bytes l =
    (ret (length bytes), record l { log = l.log ++ (bytes ∷ []); replies = xmodem_ack ∷ [] })

-- No time passes.
abbrev pub acking : Io
acking = record {
  World = Line;
  stream_read = reply_read;
  stream_write = line_write;
  file_read = line_read;
  millisecond_timer = λ l. 0;
}

-- The receiver's reading of what was written: packets with the numbers that it expects, then EOT.
unfoldable pub accept : Bool → ℕ → ℕ → List (List ℕ) → Option (List ℕ)
accept crc size num [] = none
accept crc size num ((b ∷ []) ∷ more) = if b == xmodem_eot then some [] else none
accept crc size num (p ∷ more) = elim (unpack crc size p) [
  | none ↦ none
  | some (n, block) ↦ elim (accept crc size (num + 1) more) [
    | none ↦ none
    | some blocks ↦ if n == u8 num then some (block ++ blocks) else none
  ]
]

-- Some ticks, one after the other.
unfoldable pub run : ℕ → Xmodem → Line → Option (Xmodem × Line)
run zero x l = some (x, l)
run (suc n) x l = elim (tx_tick acking 1 x l) [ none ↦ none | some (r, x', l') ↦ run n x' l' ]

pub run-step :
    (n : ℕ) (x x' : Xmodem) (l l' : Line) (r : Ret)
    → tx_tick acking 1 x l ≡ some (r, x', l')
    → run (suc n) x l ≡ run n x' l'
unfolding run
run-step n x x' l l' r e = rw (e, run) refl

pub run-same :
    (n : ℕ) (x y : Xmodem) (l m : Line)
    → tx_tick acking 1 x l ≡ tx_tick acking 1 y m
    → run (suc n) x l ≡ run (suc n) y m
unfolding run
run-same n x y l m e = rw (e, run) refl

abbrev pub line : List ℕ → List ℕ → List (List ℕ) → Line
line file replies log = record { file = file; replies = replies; log = log }

pub take-pos {ℓ} :
    {A : Type ℓ} (n : ℕ) (b : A) (bytes : List A)
    → 0 < n
    → take n (b ∷ bytes) ≡ b ∷ take (n - 1) bytes
take-pos zero b bytes h = absurd (omega arith)
take-pos (suc n) b bytes h = ap (λ k. b ∷ take k bytes) (omega arith)

pub drop-all {ℓ} : {A : Type ℓ} (n : ℕ) (xs : List A) → length xs ≤ n → drop n xs ≡ []
drop-all zero [] h = refl
drop-all zero (x ∷ xs) h = absurd (omega arith)
drop-all (suc n) [] h = refl
drop-all (suc n) (x ∷ xs) h = drop-all n xs (omega arith)

pub take-AreBytes : (n : ℕ) (xs : List ℕ) → AreBytes xs → AreBytes (take n xs)
take-AreBytes zero xs all = tt
take-AreBytes (suc n) [] all = tt
take-AreBytes (suc n) (x ∷ xs) (b, all) = (b, take-AreBytes n xs all)

pub drop-AreBytes : (n : ℕ) (xs : List ℕ) → AreBytes xs → AreBytes (drop n xs)
drop-AreBytes zero xs all = all
drop-AreBytes (suc n) [] all = tt
drop-AreBytes (suc n) (x ∷ xs) (b, all) = drop-AreBytes n xs all

unpack_short :
    (crc : Bool) (size b : ℕ) → (unpack crc size [] ≡ none) × (unpack crc size (b ∷ []) ≡ none)
unfolding unpack
unpack_short crc size b = (refl, refl)

pub accept-step :
    (crc : Bool) (size num n : ℕ) (p block blocks : List ℕ) (more : List (List ℕ))
    → unpack crc size p ≡ some (n, block)
    → n ≡ u8 num
    → accept crc size (num + 1) more ≡ some blocks
    → accept crc size num (p ∷ more) ≡ some (block ++ blocks)
unfolding accept
accept-step crc size num n [] block blocks more e same rest = cc ((unpack_short crc size 0).0)
accept-step crc size num n (b ∷ []) block blocks more e same rest = cc ((unpack_short crc size b).1)
accept-step crc size num n (b ∷ c ∷ p) block blocks more e same rest =
    let test : (n == u8 num) ≡ true = (==_iff n (u8 num)).1 same in rw (e, rest, test, accept) refl

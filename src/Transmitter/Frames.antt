-- ===== src/Transmitter/Frames.antt =====
-- transmitter.c: what the frame of a line holds.
use xbeepocs.Base.{
  Bool, List, [], false, get_or, length, suc, take, true, zero, ℕ, ◌++◌, ◌+◌, ◌-◌, ◌<◌, ◌∷◌, ◌≡◌,
  ◌≢◌, ◌≤◌,
}
use xbeepocs.Receiver.{strlen}

-- Text without a NUL.
unfoldable pub is_text : List ℕ → Bool
is_text [] = true
is_text (zero ∷ s) = false
is_text (suc b ∷ s) = is_text s

-- The next line of a file, or its first `n` bytes: nothing but the last byte is a newline, and it
-- is one if the line is shorter and not the last.
pub record IsLine (n : ℕ) (file line rest : List ℕ) : Type 0 where
  pub parts : line ++ rest ≡ file
  pub bound : length line ≤ n
  pub inside : (i : ℕ) → i + 1 < length line → get_or line i 0 ≢ 10
  pub ends : rest ≢ [] → length line < n → get_or line (length line - 1) 0 ≡ 10

-- What `fgets` leaves in an array of `s`: the line, its terminator, and what stood there before.
record IsRead (s buf line : List ℕ) : Type 0 where
  same_size : length buf ≡ length s
  size : strlen buf ≡ length line
  line_held : take (strlen buf) buf ≡ line
  kept : (i : ℕ) → strlen buf < i → get_or buf i 0 ≡ get_or s i 0

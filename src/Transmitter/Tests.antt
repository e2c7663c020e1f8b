-- ===== src/Transmitter/Tests.antt =====
-- transmitter.c over the line of the driver's tests: message 256, the line "ok" of a file.
use xbeepocs.Base.{List, [], none, refl, replicate, some, ℕ, ◌++◌, ◌∷◌, ◌≡◌}
use xbeepocs.Device.Tests.{wire, dev, idle}
use xbeepocs.Transmitter.{take_line, fgets, send_message}

-- The array after a message of 99 bytes.
abbrev stale : List ℕ
stale = replicate 99 65 ++ (0 ∷ [])

abbrev two_lines : List ℕ
two_lines = 111 ∷ 107 ∷ 10 ∷ 33 ∷ 10 ∷ []

line_by_line : take_line 99 two_lines ≡ (111 ∷ 107 ∷ 10 ∷ [], 33 ∷ 10 ∷ [])
unfolding take_line
line_by_line = refl

-- A line that does not fit is sent in parts.
in_parts : fgets (9 ∷ 9 ∷ 9 ∷ []) 3 two_lines ≡ some (111 ∷ 107 ∷ 0 ∷ [], 10 ∷ 33 ∷ 10 ∷ [])
unfolding fgets
in_parts = refl

at_end : send_message wire dev 7 stale [] idle ≡ none
unfolding send_message
at_end = refl

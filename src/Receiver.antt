-- ===== src/Receiver.antt =====
-- testBidirectional/reciever.c: the messages that are received, and those that are expected.
-- `malloc` is a parameter; memory outside of a block or of an array is `none`.
pub mod Slots
mod Tests
use xbeepocs.Base.{
  List, Option, Ret, [], bit_and, drop, ebadmsg, einval, enomem, fail, get_or, if◌then◌else◌, leb,
  length, ltb, none, ret, set, some, splice, suc, take, zero, ℕ, ◌++◌, ◌+◌, ◌==◌, ◌∷◌, ◌≡◌,
}

abbrev pub num_expected_messages : ℕ
num_expected_messages = 50

abbrev pub max_payload_size : ℕ
max_payload_size = 100

-- The offset of `payload` in `xbee_frame_receive_t`: type, address (8), network (2), options.
abbrev pub payload_offset : ℕ
payload_offset = 12

abbrev pub options_offset : ℕ
options_offset = 11

abbrev pub rx_opt_broadcast : ℕ
rx_opt_broadcast = 0x02

-- The C library's heap: a block of the size asked for, with whatever contents, or the null pointer.
pub record Heap : Type 1 where
  pub World : Type 0
  pub malloc : ℕ → World → Option (List ℕ) × World
  pub malloc_size :
      (n : ℕ) (w w' : World) (block : List ℕ) → malloc n w ≡ (some block, w') → length block ≡ n

-- The shared variables of the program.
pub record Messages : Type 0 where
  pub num_msgs_rx : ℕ
  pub recieved_msgs : List (Option (List ℕ))

-- `strncpy` into a block of `n` bytes: up to the terminator, then zeros.
unfoldable pub strncpy : ℕ → List ℕ → List ℕ
strncpy zero src = []
strncpy (suc n) [] = 0 ∷ strncpy n []
strncpy (suc n) (zero ∷ src) = 0 ∷ strncpy n []
strncpy (suc n) (suc b ∷ src) = suc b ∷ strncpy n src

-- `strlen` of an array that holds a terminator, or is followed by one.
unfoldable pub strlen : List ℕ → ℕ
strlen [] = 0
strlen (zero ∷ s) = 0
strlen (suc b ∷ s) = strlen s + 1

-- `strcpy` with its terminator, into a block: `none` when it does not fit.
unfoldable pub strcpy : List ℕ → List ℕ → Option (List ℕ)
unfolding strlen
strcpy block src =
    if ltb (length block) (strlen src + 1)
    then none
    else some (splice block 0 (take (strlen src) src ++ (0 ∷ [])))

module _ (heap : Heap) where
  open heap use {World, malloc}

  -- The part of `receive_handler` after the checks of the frame. The slot is written before the
  -- pointer is tested, so a slot past the end of the array is `none` whatever `malloc` gives.
  unfoldable pub store : Messages → List ℕ → World → Option (Ret × Messages × World)
  unfolding strncpy
  store m payload w =
      let (block, w') = malloc (length payload) w in
      if leb num_expected_messages m.num_msgs_rx then none else elim block [
        | none ↦
            some
              (fail enomem, record m { recieved_msgs = set m.recieved_msgs m.num_msgs_rx none }, w')
        | some b ↦ some (
          ret 0,
          record {
            num_msgs_rx = m.num_msgs_rx + 1;
            recieved_msgs =
                set m.recieved_msgs m.num_msgs_rx (some (strncpy (length payload) payload));
          },
          w',
        )
      ]

  -- `receive_handler`; a null frame is `none`.
  unfoldable pub receive_handler :
      Messages → Option (List ℕ) → World → Option (Ret × Messages × World)
  unfolding store
  receive_handler m none w = some (fail einval, m, w)
  receive_handler m (some frame) w =
      if ltb (length frame) payload_offset
      then some (fail ebadmsg, m, w)
      else if bit_and (get_or frame options_offset 0) rx_opt_broadcast == 0
      then some (fail ebadmsg, m, w)
      else store m (drop payload_offset frame) w

  -- The frames of the dispatches between two tests of `num_msgs_rx` in `main`.
  unfoldable pub receive_all : Messages → List (List ℕ) → World → Option (Messages × World)
  unfolding receive_handler
  receive_all m [] w = some (m, w)
  receive_all m (frame ∷ frames) w = elim (receive_handler m (some frame) w) [
    | none ↦ none
    | some (r, m', w') ↦ receive_all m' frames w'
  ]

  -- The loop of `get_expected_messages` over the lines that `fgets` gives, each without its
  -- terminator: EXIT_FAILURE, 1, when the file ends too early.
  unfoldable pub load_expected :
      ℕ
      → ℕ
      → List (Option (List ℕ))
      → List (List ℕ)
      → World
      → Option (ℕ × List (Option (List ℕ)) × World)
  unfolding strcpy strlen
  load_expected i zero messages lines w = some (0, messages, w)
  load_expected i (suc left) messages [] w = some (1, messages, w)
  load_expected i (suc left) messages (line ∷ lines) w =
      let (block, w') = malloc (strlen line) w in
      elim block [
        | none ↦ none
        | some b ↦ elim (strcpy b line) [
          | none ↦ none
          | some s ↦ load_expected (i + 1) left (set messages i (some s)) lines w'
        ]
      ]

-- ===== src/Receiver/Tests.antt =====
-- reciever.c on a heap that always has memory.
use xbeepocs.Base.{
  List, Option, [], arith, bit_and, drop, ebadmsg, fail, get_or, length, length-replicate, none,
  refl, replicate, ret, some, subst, ℕ, ◌+◌, ◌-◌, ◌<◌, ◌∷◌, ◌≡◌, ◌≢◌, ◌≤◌,
}
use xbeepocs.Receiver.{
  num_expected_messages, payload_offset, options_offset, rx_opt_broadcast, Heap, Messages, strncpy,
  receive_handler, receive_all, load_expected,
}
use xbeepocs.Receiver.Slots.{
  IsMessage, Taken, receive_handler_lem, receive_all_lem, load_expected_overrun,
}

abbrev zeros : ℕ → Unit {0} → Option (List ℕ) × Unit {0}
zeros n w = (some (replicate n 0), w)

zeros_size :
    (n : ℕ) (w w' : Unit {0}) (block : List ℕ) → zeros n w ≡ (some block, w') → length block ≡ n
zeros_size n w w' block e =
    let same : replicate n 0 ≡ block = cc in subst (λ l. length l ≡ n) same (length-replicate n 0)

abbrev heap : Heap
heap = record { World = Unit; malloc = zeros; malloc_size = zeros_size }

plenty : (n : ℕ) (w : Unit {0}) → (block : List ℕ) × ((zeros n w).0 ≡ some block)
plenty n w = (replicate n 0, refl)

abbrev full_but_two : Messages
full_but_two = record { num_msgs_rx = 48; recieved_msgs = replicate 50 none }

-- A broadcast of "hi".
abbrev hi : List ℕ
hi = 0x90 ∷ 0 ∷ 0 ∷ 0 ∷ 0 ∷ 0 ∷ 0 ∷ 0 ∷ 1 ∷ 0xFF ∷ 0xFE ∷ 2 ∷ 104 ∷ 105 ∷ []

hi-IsMessage : IsMessage hi
hi-IsMessage = (omega arith, λ e. absurd (omega arith))

-- Three messages in one tick, and two slots left.
three_overrun : receive_all heap full_but_two (hi ∷ hi ∷ hi ∷ []) _ ≡ none
unfolding receive_all
three_overrun = refl

receive_handler_lem_example :
    (length hi < payload_offset
      → receive_handler heap full_but_two (some hi) _ ≡ some (fail ebadmsg, full_but_two, _))
    × (payload_offset ≤ length hi
        → bit_and (get_or hi options_offset 0) rx_opt_broadcast ≡ 0
        → receive_handler heap full_but_two (some hi) _ ≡ some (fail ebadmsg, full_but_two, _))
    × (IsMessage hi
        → full_but_two.num_msgs_rx < num_expected_messages
        → (m' : Messages) × (w' : Unit {0}) × (receive_handler heap full_but_two (some hi) _
            ≡ some (ret 0, m', w'))
          × (m'.num_msgs_rx ≡ full_but_two.num_msgs_rx + 1)
          × (length m'.recieved_msgs ≡ num_expected_messages)
          × (get_or m'.recieved_msgs full_but_two.num_msgs_rx none
              ≡ some (strncpy (length hi - payload_offset) (drop payload_offset hi)))
          × ((i : ℕ)
              → full_but_two.num_msgs_rx ≢ i
              → get_or m'.recieved_msgs i none ≡ get_or full_but_two.recieved_msgs i none))
    × (IsMessage hi
        → num_expected_messages ≤ full_but_two.num_msgs_rx
        → receive_handler heap full_but_two (some hi) _ ≡ none)
receive_handler_lem_example = receive_handler_lem heap plenty full_but_two hi _ refl

receive_all_lem_example : Taken heap plenty full_but_two (hi ∷ hi ∷ hi ∷ []) _
receive_all_lem_example =
    receive_all_lem heap plenty full_but_two (hi ∷ hi ∷ hi ∷ []) _ refl
      (hi-IsMessage, (hi-IsMessage, (hi-IsMessage, _)))

load_expected_overrun_example :
    load_expected heap 0 50 (replicate 50 none) ((104 ∷ 105 ∷ 10 ∷ []) ∷ []) _ ≡ none
load_expected_overrun_example =
    load_expected_overrun heap 0 49 (replicate 50 none) (104 ∷ 105 ∷ 10 ∷ []) [] _

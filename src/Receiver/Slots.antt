-- ===== src/Receiver/Slots.antt =====
-- `receive_handler` and `get_expected_messages`: what they store, and what there is room for.
use xbeepocs.Base.{
  Bool-cases, List, Option, [], ap, arith, bit_and, drop, ebadmsg, fail, false, get_or,
  get_or-set_ne, get_or-set_self, inl, inr, leb, length, length-drop, length-set, ltb, none, refl,
  ret, set, some, subst, suc, true, ℕ, ◌+◌, ◌-◌, ◌<◌, ◌==◌, ◌∙◌, ◌∷◌, ◌≡◌, ◌≢◌, ◌≤◌, ◌⊎◌,
}
use xbeepocs.Receiver.{
  num_expected_messages, payload_offset, options_offset, rx_opt_broadcast, Heap, Messages, strncpy,
  strlen, strcpy, store, receive_handler, receive_all, load_expected,
}

-- A frame that passes the checks of `receive_handler`.
abbrev pub IsMessage : List ℕ → Type 0
IsMessage frame =
    (payload_offset ≤ length frame) × (bit_and (get_or frame options_offset 0) rx_opt_broadcast ≢ 0)

abbrev pub AreMessages : List (List ℕ) → Type 0
AreMessages [] = Unit
AreMessages (frame ∷ frames) = IsMessage frame × AreMessages frames

module _ (heap : Heap) where
  open heap use {World, malloc, malloc_size}

  -- The allocation succeeds whatever was allocated before.
  module _ (plenty : (n : ℕ) (w : World) → (block : List ℕ) × ((malloc n w).0 ≡ some block)) where
    -- With an array of the declared size and memory that never runs out, `receive_handler`
    -- refuses with -EBADMSG, and stores nothing, a frame shorter than its header and one that was
    -- not broadcast. Of any other, if the array has a slot left, it stores the payload as
    -- `strncpy` copies it in the next slot and in no other, and counts it; if it has none, it
    -- writes past the array.
    pub receive_handler_lem :
        (m : Messages) (frame : List ℕ) (w : World)
        → length m.recieved_msgs ≡ num_expected_messages
        → (length frame < payload_offset
            → receive_handler heap m (some frame) w ≡ some (fail ebadmsg, m, w))
          × (payload_offset ≤ length frame
              → bit_and (get_or frame options_offset 0) rx_opt_broadcast ≡ 0
              → receive_handler heap m (some frame) w ≡ some (fail ebadmsg, m, w))
          × (IsMessage frame
              → m.num_msgs_rx < num_expected_messages
              → (m' : Messages) × (w' : World) × (receive_handler heap m (some frame) w
                  ≡ some (ret 0, m', w'))
                × (m'.num_msgs_rx ≡ m.num_msgs_rx + 1)
                × (length m'.recieved_msgs ≡ num_expected_messages)
                × (get_or m'.recieved_msgs m.num_msgs_rx none
                    ≡ some (strncpy (length frame - payload_offset) (drop payload_offset frame)))
                × ((i : ℕ)
                    → m.num_msgs_rx ≢ i
                    → get_or m'.recieved_msgs i none ≡ get_or m.recieved_msgs i none))
          × (IsMessage frame
              → num_expected_messages ≤ m.num_msgs_rx
              → receive_handler heap m (some frame) w ≡ none)
    unfolding receive_handler store
    receive_handler_lem m frame w size = (
      λ lt. let a : ltb (length frame) payload_offset ≡ true = ground arith in rw a,
      λ le zero_bit.
          let a : ltb (length frame) payload_offset ≡ false = ground arith in
          let b : (bit_and (get_or frame options_offset 0) rx_opt_broadcast == 0) ≡ true =
            ground (arith, zero_bit) in
          rw (a, b),
      λ ok room.
          let a : ltb (length frame) payload_offset ≡ false = ground (arith, ok) in
          let b : (bit_and (get_or frame options_offset 0) rx_opt_broadcast == 0) ≡ false =
            ground (arith, ok) in
          let c : leb num_expected_messages m.num_msgs_rx ≡ false = ground arith in
          let payload = drop payload_offset frame in
          let (block, given) = plenty (length payload) w in
          let stored = strncpy (length payload) payload in
          let m' : Messages = record {
            num_msgs_rx = m.num_msgs_rx + 1;
            recieved_msgs = set m.recieved_msgs m.num_msgs_rx (some stored);
          } in
          (
            m',
            (malloc (length payload) w).1,
            rw (a, b, c, given),
            refl,
            length-set m.recieved_msgs m.num_msgs_rx (some stored) ∙ size,
            get_or-set_self m.recieved_msgs m.num_msgs_rx (some stored) none (omega (arith, size))
                ∙ ap (λ k. some (strncpy k payload)) (length-drop payload_offset frame),
            λ i ne. get_or-set_ne m.recieved_msgs m.num_msgs_rx i (some stored) none ne,
          ),
      λ ok full.
          let a : ltb (length frame) payload_offset ≡ false = ground (arith, ok) in
          let b : (bit_and (get_or frame options_offset 0) rx_opt_broadcast == 0) ≡ false =
            ground (arith, ok) in
          let c : leb num_expected_messages m.num_msgs_rx ≡ true = ground arith in rw (a, b, c),
    )

    -- What lies in the slots from a place on: the payloads of some frames.
    abbrev pub AreStored : List (Option (List ℕ)) → ℕ → List (List ℕ) → Type 0
    AreStored slots i [] = Unit
    AreStored slots i (frame ∷ frames) =
        (get_or slots i none
          ≡ some (strncpy (length frame - payload_offset) (drop payload_offset frame)))
        × AreStored slots (i + 1) frames

    -- All of the frames are stored and counted if they fit; if they do not, the array is overrun.
    abbrev pub Taken : Messages → List (List ℕ) → World → Type 0
    Taken m frames w =
        (m.num_msgs_rx + length frames ≤ num_expected_messages
          → (m' : Messages) × (w' : World) × (receive_all heap m frames w ≡ some (m', w'))
            × (m'.num_msgs_rx ≡ m.num_msgs_rx + length frames)
            × AreStored m'.recieved_msgs m.num_msgs_rx frames
            × ((i : ℕ)
                → (i < m.num_msgs_rx) ⊎ (m.num_msgs_rx + length frames ≤ i)
                → get_or m'.recieved_msgs i none ≡ get_or m.recieved_msgs i none))
        × (m.num_msgs_rx ≤ num_expected_messages
            → num_expected_messages < m.num_msgs_rx + length frames
            → receive_all heap m frames w ≡ none)

    -- With an array of the declared size and memory that never runs out, broadcast frames of at
    -- least the header's length, taken in between two tests of the count in `main`, are all counted if the array
    -- has room for them, and their payloads, as `strncpy` copies them, lie in order in the next
    -- slots, while the other slots are as before; if it has room for fewer, `receive_handler` writes
    -- past the array.
    pub receive_all_lem :
        (m : Messages) (frames : List (List ℕ)) (w : World)
        → length m.recieved_msgs ≡ num_expected_messages
        → AreMessages frames
        → Taken m frames w
    unfolding receive_all
    receive_all_lem m [] w size good =
        (λ le. (m, w, refl, omega arith, tt, λ i out. refl), λ le lt. absurd (omega arith))
    receive_all_lem m (frame ∷ frames) w size (good, others) =
        let ih : Ih = λ m1 w1 size1. receive_all_lem m1 frames w1 size1 others in
        (fits ih, spills ih)
      where
        Ih : Type 0
        Ih =
            (m1 : Messages) (w1 : World)
            → length m1.recieved_msgs ≡ num_expected_messages
            → Taken m1 frames w1

        one :
            m.num_msgs_rx < num_expected_messages
            → (m' : Messages) × (w' : World) × (receive_handler heap m (some frame) w
                ≡ some (ret 0, m', w'))
              × (m'.num_msgs_rx ≡ m.num_msgs_rx + 1)
              × (length m'.recieved_msgs ≡ num_expected_messages)
              × (get_or m'.recieved_msgs m.num_msgs_rx none
                  ≡ some (strncpy (length frame - payload_offset) (drop payload_offset frame)))
              × ((i : ℕ)
                  → m.num_msgs_rx ≢ i
                  → get_or m'.recieved_msgs i none ≡ get_or m.recieved_msgs i none)
        one lt = (receive_handler_lem m frame w size).2 good lt

        fits :
            Ih
            → m.num_msgs_rx + length (frame ∷ frames) ≤ num_expected_messages
            → (m' : Messages) × (w' : World) × (receive_all heap m (frame ∷ frames) w
                ≡ some (m', w'))
              × (m'.num_msgs_rx ≡ m.num_msgs_rx + length (frame ∷ frames))
              × AreStored m'.recieved_msgs m.num_msgs_rx (frame ∷ frames)
              × ((i : ℕ)
                  → (i < m.num_msgs_rx) ⊎ (m.num_msgs_rx + length (frame ∷ frames) ≤ i)
                  → get_or m'.recieved_msgs i none ≡ get_or m.recieved_msgs i none)
        fits ih le =
            let (m1, w1, run, count, size1, slot, same1) = one (omega arith) in
            let (m2, w2, rest, total, stored, same2) = (ih m1 w1 size1).0 (omega (arith, count)) in
            (
              m2,
              w2,
              rw (receive_all, run) rest,
              omega (arith, total, count),
              (
                same2 m.num_msgs_rx (inl (omega (arith, count))) ∙ slot,
                subst (λ n. AreStored m2.recieved_msgs n frames) count stored,
              ),
              λ i out.
                  same2 i (elim out [
                    | inl before ↦ inl (omega (arith, count, before))
                    | inr past ↦ inr (omega (arith, count, past))
                  ])
                  ∙ same1 i (elim out [
                    | inl before ↦ λ e. absurd (omega (arith, e, before))
                    | inr past ↦ λ e. absurd (omega (arith, e, past))
                  ]),
            )

        spills :
            Ih
            → m.num_msgs_rx ≤ num_expected_messages
            → num_expected_messages < m.num_msgs_rx + length (frame ∷ frames)
            → receive_all heap m (frame ∷ frames) w ≡ none
        spills ih le lt = elim (Bool-cases (leb num_expected_messages m.num_msgs_rx)) [
          | inl full ↦
              let all : num_expected_messages ≤ m.num_msgs_rx = ground (arith, full) in
              let run = (receive_handler_lem m frame w size).3 good all in rw (receive_all, run)
          | inr room ↦
              let (m1, w1, run, count, size1, slot, same) = one (ground (arith, room)) in
              rw (receive_all, run)
                ((ih m1 w1 size1).1 (ground (arith, count, room)) (omega (arith, count)))
        ]

  -- `get_expected_messages` copies the first line that it reads past the end of the block that it
  -- allocated for it, whatever the line: the block has no byte for the terminator.
  pub load_expected_overrun :
      (i left : ℕ) (messages : List (Option (List ℕ))) (line : List ℕ) (lines : List (List ℕ))
      (w : World)
      → load_expected heap i (suc left) messages (line ∷ lines) w ≡ none
  unfolding load_expected strcpy
  load_expected_overrun i left messages line lines w =
      given (malloc (strlen line) w).0 (malloc (strlen line) w).1 refl
    where
      given :
          (b : Option (List ℕ)) (w' : World)
          → malloc (strlen line) w ≡ (b, w')
          → load_expected heap i (suc left) messages (line ∷ lines) w ≡ none
      given none w' e = rw (load_expected, e)
      given (some block) w' e =
          let test : ltb (length block) (strlen line + 1) ≡ true =
            ground (arith, malloc_size (strlen line) w w' block e) in
          rw (load_expected, e, test)

-- ===== src/Device/Stream.antt =====
-- `_xbee_frame_load` on a stream of bytes: a frame that was sent is found and dispatched.
use xbeepocs.Base.{
  Bool-cases, List, Option, Ret, [], ap, arith, if◌then◌else◌, inl, inr, length, length-append,
  refl, ret, slice-splice, some, splice, suc, sym, take, take-append, take-take, true, ℕ, ◌%◌, ◌*◌,
  ◌++◌, ◌+◌, ◌/◌, ◌==◌, ◌∙◌, ◌∷◌, ◌≡◌, ◌≢◌, ◌≤◌,
}
use xbeepocs.Serial.{Os}
use xbeepocs.Device.State.{
  wait_start, length_msb, length_lsb, rx_frame, Rx, Dev, max_rx_frame_len, max_dispatch_per_tick,
}
use xbeepocs.Device.{Calls, Pass, again, exit, checksum, on_frame, pass, load_loop, frame_dispatch}
use xbeepocs.Device.Checksum.{checksum_verifies}
use xbeepocs.Device.Send.{encode}
use xbeepocs.Device.Passes.{Feeds, skip_byte, at_start, at_msb, at_lsb, at_data}

-- The receive state once all of a frame has been read.
abbrev pub received : Rx → List ℕ → Rx
received rx content = record {
  state = wait_start;
  bytes_in_frame = length content;
  bytes_read = 0;
  frame_data = splice rx.frame_data 0 (content ++ (checksum content 0xFF ∷ []));
}

-- Bytes that are no start of a frame.
abbrev pub Unmarked : List ℕ → Type 0
Unmarked [] = Unit
Unmarked (b ∷ bytes) = (b ≢ 0x7E) × Unmarked bytes

module _ (sys : Os) (call : Calls sys) (feed : List ℕ → sys.World) (port : Feeds sys feed) where
  open sys use {World}

  module _ (fd : ℕ) where
    -- A frame that passes the checksum is dispatched.
    at_end :
        (n : ℕ) (d : Dev) (content : List ℕ) (w : World)
        → length d.rx.frame_data ≡ max_rx_frame_len + 1
        → length content ≤ max_rx_frame_len
        → on_frame sys call n (record d { rx = received d.rx content }) w ≡ (
            let (k, d', w') =
              frame_dispatch sys call (record d { rx = received d.rx content }) content w in
            if n + 1 == max_dispatch_per_tick
            then exit (ret (n + 1)) d' w'
            else again (n + 1) d' w')
    unfolding on_frame
    at_end n d content w room short = rw (good) (ap after content_is)
      where
        sealed : List ℕ
        sealed = content ++ (checksum content 0xFF ∷ [])

        whole : take (length content + 1) (splice d.rx.frame_data 0 sealed) ≡ sealed
        whole =
            ap (λ k. take k (splice d.rx.frame_data 0 sealed))
              (sym (length-append content (checksum content 0xFF ∷ [])))
            ∙ slice-splice sealed d.rx.frame_data 0 0
                (omega (arith, room, short, length-append content (checksum content 0xFF ∷ [])))

        content_is : take (length content) (splice d.rx.frame_data 0 sealed) ≡ content
        content_is =
            sym (
              take-take (length content) (length content + 1) (splice d.rx.frame_data 0 sealed)
                (omega arith))
            ∙ ap (take (length content)) whole
            ∙ take-append content (checksum content 0xFF ∷ [])

        good :
            (checksum (take (length content + 1) (splice d.rx.frame_data 0 sealed)) 0xFF == 0)
            ≡ true
        good = ap (λ l. checksum l 0xFF == 0) whole ∙ ap (λ c. c == 0) (checksum_verifies content)

        after : List ℕ → Pass sys call
        after l =
            let (k, d', w') =
              frame_dispatch sys call (record d { rx = received d.rx content }) l w in
            if n + 1 == max_dispatch_per_tick then exit (ret (n + 1)) d' w' else again (n + 1) d' w'

    next :
        (fuel n n' : ℕ) (d d' : Dev) (w w' : World)
        → pass sys call n d w ≡ again n' d' w'
        → load_loop sys call (suc fuel) n d w ≡ load_loop sys call fuel n' d' w'
    unfolding load_loop
    next fuel n n' d d' w w' e = rw (load_loop, e)

    -- What the driver makes of a frame that came in whole.
    abbrev taken_in : ℕ → ℕ → Dev → List ℕ → World → Option (Ret × Dev × World)
    taken_in fuel n d content w =
        let (k, d', w') =
          frame_dispatch sys call (record d { rx = received d.rx content }) content w in
        if n + 1 == max_dispatch_per_tick
        then some (ret (n + 1), d', w')
        else load_loop sys call fuel (n + 1) d' w'

    last :
        (fuel n : ℕ) (d : Dev) (content : List ℕ) (w v : World)
        → length d.rx.frame_data ≡ max_rx_frame_len + 1
        → length content ≤ max_rx_frame_len
        → (e : Dev)
        → pass sys call n e v ≡ on_frame sys call n (record d { rx = received d.rx content }) w
        → load_loop sys call (suc fuel) n e v ≡ taken_in fuel n d content w
    unfolding load_loop
    last fuel n d content w v room short e p = elim (Bool-cases (n + 1 == max_dispatch_per_tick)) [
      | inl five ↦ rw (load_loop, p ∙ at_end n d content w room short, five)
      | inr fewer ↦ rw (load_loop, p ∙ at_end n d content w room short, fewer)
    ]

    at_frame :
        (fuel n : ℕ) (d : Dev) (content rest : List ℕ)
        → d.serport.fd ≡ some fd
        → d.rx.state ≡ wait_start
        → length d.rx.frame_data ≡ max_rx_frame_len + 1
        → 2 ≤ length content
        → length content ≤ max_rx_frame_len
        → load_loop sys call (suc (suc (suc (suc fuel)))) n d (feed (encode content ++ rest))
          ≡ taken_in fuel n d content (feed rest)
    at_frame fuel n d [] rest e st room lo hi = absurd (omega arith)
    at_frame fuel n d (c ∷ cs) rest e st room lo hi =
        next (suc (suc (suc fuel))) n n d d1 _ _
          (at_start sys call feed port fd n d (len / 256 ∷ len % 256 ∷ wire) e st)
        ∙ next (suc (suc fuel)) n n d1 d2 _ _
            (at_msb sys call feed port fd n d1 (len / 256) (len % 256 ∷ wire) e refl (ne len hi))
        ∙ next (suc fuel) n n d2 d3 _ _
            (at_lsb sys call feed port fd n d2 (len % 256) wire e refl (omega arith) (omega arith))
        ∙ last fuel n d (c ∷ cs) (feed rest) (feed wire) room hi d3 (
            at_data sys call feed port fd n d3 c (cs ++ (sum ∷ [])) rest e refl
              (omega (arith, length-append cs (sum ∷ [])))
            ∙ ap
                (λ k.
                  on_frame sys call n
                    (record d { rx = record (received d.rx (c ∷ cs)) { bytes_in_frame = k } })
                    (feed rest))
                same)
      where
        len : ℕ
        len = length (c ∷ cs)

        sum : ℕ
        sum = checksum (c ∷ cs) 0xFF

        wire : List ℕ
        wire = c ∷ ((cs ++ (sum ∷ [])) ++ rest)

        d1 : Dev
        d1 = record d { rx = record (d.rx) { state = length_msb } }

        d2 : Dev
        d2 = record d {
          rx = record (d1.rx) { bytes_in_frame = len / 256 * 256; state = length_lsb };
        }

        d3 : Dev
        d3 = record d {
          rx = record (d2.rx) {
            bytes_in_frame = len / 256 * 256 + len % 256;
            state = rx_frame;
            bytes_read = 0;
          };
        }

        same : len / 256 * 256 + len % 256 ≡ len
        same = omega arith

        ne : (l : ℕ) → l ≤ max_rx_frame_len → l / 256 ≢ 0x7E
        ne l h f = absurd (omega arith)

    -- A device that waits for a frame, on an open port that holds bytes that are no marker and then
    -- a frame of 2 to 1518 bytes of content, dispatches exactly that content after four reads and
    -- one for each byte before; it then goes on with what follows, or returns if that was the
    -- fifth frame.
    pub load_loop-encode :
        (fuel n : ℕ) (d : Dev) (junk content rest : List ℕ)
        → d.serport.fd ≡ some fd
        → d.rx.state ≡ wait_start
        → length d.rx.frame_data ≡ max_rx_frame_len + 1
        → Unmarked junk
        → 2 ≤ length content
        → length content ≤ max_rx_frame_len
        → load_loop sys call
            (length junk + (4 + fuel))
            n
            d
            (feed (junk ++ (encode content ++ rest)))
          ≡ taken_in fuel n d content (feed rest)
    load_loop-encode fuel n d [] content rest e st room clean lo hi =
        let four : 0 + (4 + fuel) ≡ suc (suc (suc (suc fuel))) = omega arith in
        ap (λ k. load_loop sys call k n d (feed (encode content ++ rest))) four
        ∙ at_frame fuel n d content rest e st room lo hi
    load_loop-encode fuel n d (b ∷ junk) content rest e st room clean lo hi =
        let one : suc (length junk) + (4 + fuel) ≡ suc (length junk + (4 + fuel)) = omega arith in
        ap (λ k. load_loop sys call k n d (feed (b ∷ (junk ++ (encode content ++ rest))))) one
        ∙ next (length junk + (4 + fuel)) n n d d _ _
            (skip_byte sys call feed port fd n d b (junk ++ (encode content ++ rest)) e st clean.0)
        ∙ load_loop-encode fuel n d junk content rest e st room clean.1 lo hi

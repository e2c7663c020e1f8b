-- ===== src/Cbuf/Get.antt =====
-- Reading from a circular buffer: `xbee_cbuf_getch`, `xbee_cbuf_get` and `xbee_cbuf_flush`.
use native.Mathlib.Decide.{dec_lt, ℕ_discrete}
use native.Mathlib.Nat.{mod-eq_of_lt}
use xbeepocs.Base.{
  List, [], ap, ap₂, arith, bit_and, false, get_or, inl, inr, ltb, min, none, slice, some, sub_u32,
  sym, take, true, u32, ℕ, ◌++◌, ◌+◌, ◌-◌, ◌<◌, ◌==◌, ◌^◌, ◌∙◌, ◌∷◌, ◌≡◌, ◌≢◌, ◌≤◌, ◌⊎◌,
}
use xbeepocs.Cbuf.{Cbuf, getch, get, flush, used, free, clip, end_space}
use xbeepocs.Cbuf.Index.{
  IsValid, mask_small, and_mask_neg, next_index_wrap, next_index_lt, used_le, used_lt,
  used-add-free, end_space_lem,
}
use xbeepocs.Cbuf.Contents.{
  contents, cyclic, take-cyclic, cyclic-add, cyclic_shift, cyclic_straight,
}

module _ {c : Cbuf} (v : IsValid c) where
  -- The same buffer read up to another head.
  advanced : (h : ℕ) → h ≤ c.mask → IsValid (record c { head = h })
  advanced h le = record {
    bits = v.bits;
    size = v.size;
    bits_le = v.bits_le;
    at_least = v.at_least;
    head_in = le;
    tail_in = v.tail_in;
    room = v.room;
  }

  -- Moving the head by `n` used bytes, perhaps round the end, drops them from the queue.
  used-advanced :
      (h n : ℕ)
      → h ≤ c.mask
      → (c.head + n ≡ h) ⊎ (c.head + n ≡ h + (c.mask + 1))
      → n ≤ used c
      → used c ≡ n + used (record c { head = h })
  used-advanced h n le step fits = elim (dec_lt c.tail c.head) [
    | yes p ↦ elim (dec_lt c.tail h) [
      | yes q ↦ omega (arith, used_lt v p, used_lt (advanced h le) q, v.head_in)
      | no q ↦ omega (arith, used_lt v p, used_le (advanced h le) (omega arith), v.head_in)
    ]
    | no p ↦ elim (dec_lt c.tail h) [
      | yes q ↦
          omega (arith, used_le v (omega arith), used_lt (advanced h le) q, v.tail_in, v.head_in)
      | no q ↦
          omega (arith, used_le v (omega arith), used_le (advanced h le) (omega arith), v.tail_in)
    ]
  ]

  contents-advanced :
      (h n : ℕ)
      → h ≤ c.mask
      → (c.head + n ≡ h) ⊎ (c.head + n ≡ h + (c.mask + 1))
      → n ≤ used c
      → contents c ≡ cyclic c.bytes (c.mask + 1) c.head n ++ contents (record c { head = h })
  contents-advanced h n le step fits =
      ap (λ u. cyclic c.bytes (c.mask + 1) c.head u) (used-advanced h n le step fits)
      ∙ cyclic-add c.bytes (c.mask + 1) c.head n left
      ∙ ap (λ r. cyclic c.bytes (c.mask + 1) c.head n ++ r) (turn step)
    where
      left : ℕ
      left = used (record c { head = h })

      turn :
          (c.head + n ≡ h) ⊎ (c.head + n ≡ h + (c.mask + 1))
          → cyclic c.bytes (c.mask + 1) (c.head + n) left ≡ cyclic c.bytes (c.mask + 1) h left
      turn (inl e) = rw e
      turn (inr e) = rw e (cyclic_shift c.bytes (c.mask + 1) h left)

  -- `xbee_cbuf_flush` empties the buffer and keeps it valid.
  pub flush-IsValid : IsValid (flush c) × (used (flush c) ≡ 0) × (free (flush c) ≡ c.mask)
  unfolding flush
  flush-IsValid =
      let w : IsValid (record c { head = c.tail }) = advanced c.tail v.tail_in in
      (
        w,
        omega (arith, used_le w (omega arith)),
        omega (arith, used_le w (omega arith), used-add-free w),
      )

  abbrev next_head : ℕ
  next_head = bit_and (u32 (c.head + 1)) c.mask

  next_head_lem :
      (next_head ≤ c.mask) × ((c.head + 1 ≡ next_head) ⊎ (c.head + 1 ≡ next_head + (c.mask + 1)))
  next_head_lem = elim (dec_lt c.head c.mask) [
    | yes p ↦ omega (arith, next_index_lt v c.head p)
    | no p ↦
        let e : c.head ≡ c.mask = omega (arith, v.head_in) in
        omega (arith, next_index_wrap v c.head e)
  ]

  -- `xbee_cbuf_getch` reports an empty buffer and changes nothing; otherwise it returns the oldest
  -- byte, the queue loses it, and the buffer stays valid.
  pub getch_lem :
      (used c ≡ 0 → getch c ≡ (none, c))
      × (0 < used c
          → (x : ℕ) × ((getch c).0 ≡ some x)
            × (contents c ≡ x ∷ contents (getch c).1)
            × IsValid (getch c).1)
  unfolding getch
  getch_lem = elim (ℕ_discrete c.head c.tail) [
    | yes e ↦
        let test : (c.head == c.tail) ≡ true = ground arith in
        (λ z. rw test, λ z. absurd (omega (arith, used_le v (omega arith))))
    | no ne ↦
        let test : (c.head == c.tail) ≡ false = ground arith in
        (
          λ z. absurd (omega (arith, stored ne)),
          λ z. (
            get_or c.bytes c.head 0,
            rw test,
            rw test (queue ne),
            rw test (advanced next_head next_head_lem.0),
          ),
        )
  ]
    where
      stored : c.head ≢ c.tail → 0 < used c
      stored ne = elim (dec_lt c.tail c.head) [
        | yes p ↦ omega (arith, used_lt v p, v.head_in)
        | no p ↦ omega (arith, used_le v (omega arith))
      ]

      oldest : cyclic c.bytes (c.mask + 1) c.head 1 ≡ get_or c.bytes c.head 0 ∷ []
      oldest = ap (λ i. get_or c.bytes i 0 ∷ []) (mod-eq_of_lt (omega (arith, v.head_in)))

      queue :
          c.head ≢ c.tail
          → contents c ≡ get_or c.bytes c.head 0 ∷ contents (record c { head = next_head })
      queue ne =
          contents-advanced next_head 1 next_head_lem.0 next_head_lem.1 (stored ne)
          ∙ ap (λ l. l ++ contents (record c { head = next_head })) oldest

  -- What holds of the bytes copied out, and of a head moved past them.
  handed :
      (out : List ℕ) (n h : ℕ)
      → out ≡ cyclic c.bytes (c.mask + 1) c.head n
      → n ≤ used c
      → (n ≢ end_space c.mask c.head
          → (h ≤ c.mask) × ((c.head + n ≡ h) ⊎ (c.head + n ≡ h + (c.mask + 1))))
      → (out ≡ take n (contents c))
        × (n ≢ end_space c.mask c.head
            → IsValid (record c { head = h })
              × (contents c ≡ out ++ contents (record c { head = h })))
  handed out n h e fits step = (
    e ∙ sym (take-cyclic c.bytes (c.mask + 1) c.head n (used c) fits),
    λ ne.
        let (le, at) = step ne in
        (
          advanced h le,
          contents-advanced h n le at fits
              ∙ ap (λ l. l ++ contents (record c { head = h })) (sym e),
        ),
  )

  -- `xbee_cbuf_get` on a valid buffer returns the number of bytes asked for or stored, whichever
  -- is less, and hands out exactly that many of the oldest, in order. Unless the copy stops just
  -- at the end of the array, the rest stays as the queue of a valid buffer.
  pub get_lem :
      (n : ℕ)
      → let k = min n (used c) in
        ((get c n).0 ≡ k)
        × ((get c n).1 ≡ take k (contents c))
        × (k ≢ end_space c.mask c.head
            → IsValid (get c n).2 × (contents c ≡ (get c n).1 ++ contents (get c n).2))
  unfolding get
  get_lem n = elim (dec_lt e k) [
    | yes p ↦
        let test : ltb e (clip n (used c)) ≡ true = ground (arith, clip_min) in
        rw test (
          rw clip_min (
            omega (arith, small),
            (handed (slice c.bytes c.head e ++ slice c.bytes 0 (k - e)) k (u32 (0 + (k - e)))
                (round p) (omega arith) λ ne. omega (arith, e_lem, small, fits)).0,
            (handed (slice c.bytes c.head e ++ slice c.bytes 0 (k - e)) k (u32 (0 + (k - e)))
                (round p) (omega arith) λ ne. omega (arith, e_lem, small, fits)).1,
          ))
    | no p ↦
        let test : ltb e (clip n (used c)) ≡ false = ground (arith, clip_min) in
        rw test (
          rw clip_min (
            omega (arith, small),
            (handed (slice c.bytes c.head k) k (u32 (c.head + k)) (flat p) (omega arith)
                λ ne. omega (arith, e_lem, small, mask_small v, v.head_in)).0,
            (handed (slice c.bytes c.head k) k (u32 (c.head + k)) (flat p) (omega arith)
                λ ne. omega (arith, e_lem, small, mask_small v, v.head_in)).1,
          ))
  ]
    where
      k : ℕ
      k = min n (used c)

      e : ℕ
      e = end_space c.mask c.head

      clip_min : clip n (used c) ≡ k
      clip_min = ground arith

      e_lem : e ≡ c.mask + 1 - c.head
      e_lem = end_space_lem v c.head v.head_in

      fits : k ≤ c.mask
      fits = omega (arith, used-add-free v)

      small : k < 2 ^ 31
      small = omega (arith, fits, mask_small v)

      -- A copy within the array, and one round its end.
      flat : ¬ (e < k) → slice c.bytes c.head k ≡ cyclic c.bytes (c.mask + 1) c.head k
      flat p = sym (
          cyclic_straight c.bytes (c.mask + 1) c.head k (omega (arith, e_lem))
            (omega (arith, v.room)))

      round :
          e < k
          → slice c.bytes c.head e ++ slice c.bytes 0 (k - e) ≡ cyclic c.bytes (c.mask + 1) c.head k
      round p =
          ap₂ ◌++◌
            (sym (
              cyclic_straight c.bytes (c.mask + 1) c.head e (omega (arith, e_lem))
                (omega (arith, v.room))))
            (sym (
                cyclic_straight c.bytes (c.mask + 1) 0 (k - e) (omega (arith, fits))
                  (omega (arith, v.room)))
              ∙ sym (cyclic_shift c.bytes (c.mask + 1) 0 (k - e))
              ∙ ap (λ s. cyclic c.bytes (c.mask + 1) s (k - e)) {y = c.head + e}
                  (omega (arith, e_lem, v.head_in)))
          ∙ sym (cyclic-add c.bytes (c.mask + 1) c.head e (k - e))
          ∙ ap (λ n. cyclic c.bytes (c.mask + 1) c.head n) {y = k} (omega (arith, p))

  past_end :
      (h : ℕ)
      → h ≡ c.mask + 1
      → c.tail ≡ 0
      → (used (record c { head = h }) ≡ 0) × ((getch (record c { head = h })).0 ≢ none)
  unfolding used getch
  past_end h e z = (
    and_mask_neg v (sub_u32 c.tail h) (c.mask + 1) (omega arith) (omega arith)
          (omega (arith, mask_small v))
        ∙ omega arith,
    let test : (h == c.tail) ≡ false = ground arith in rw test (λ q. cc),
  )

  -- A copy that stops just at the end of the array leaves the head one past it, outside the
  -- array. If that emptied the buffer, `xbee_cbuf_getch` then returns a byte all the same, read
  -- behind the array, and not -1.
  pub get_overrun :
      (n : ℕ)
      → min n (used c) ≡ end_space c.mask c.head
      → ((get c n).2.head ≡ c.mask + 1)
        × (c.tail ≡ 0 → (used (get c n).2 ≡ 0) × ((getch (get c n).2).0 ≢ none))
  unfolding get
  get_overrun n at =
      let test : ltb e (clip n (used c)) ≡ false = ground (arith, clip_min) in
      rw test (rw clip_min (over, λ z. past_end (u32 (c.head + k)) over z))
    where
      k : ℕ
      k = min n (used c)

      e : ℕ
      e = end_space c.mask c.head

      clip_min : clip n (used c) ≡ k
      clip_min = ground arith

      over : u32 (c.head + k) ≡ c.mask + 1
      over = omega (arith, at, end_space_lem v c.head v.head_in, mask_small v, v.head_in)

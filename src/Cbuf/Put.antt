-- ===== src/Cbuf/Put.antt =====
-- Writing to a circular buffer: `xbee_cbuf_putch` and `xbee_cbuf_put` append to its queue.
use native.Mathlib.Decide.{dec_lt, dec_le}
use native.Mathlib.Nat.{add-zero}
use xbeepocs.Base.{
  List, [], ap, append-nil, append_assoc, arith, bit_and, drop, false, inl, inr, leb, length,
  length-append, length-drop, length-set, length-splice, length-take, min, refl, set, splice, subst,
  sym, take, take-append-take-drop, true, u32, u8, ℕ, ◌++◌, ◌+◌, ◌-◌, ◌<◌, ◌==◌, ◌^◌, ◌∙◌, ◌∷◌, ◌≡◌,
  ◌≢◌, ◌≤◌, ◌⊎◌,
}
use xbeepocs.Cbuf.{Cbuf, putch, put, used, free, clip, end_space}
use xbeepocs.Cbuf.Index.{
  IsValid, mask_small, next_index_wrap, next_index_lt, used_le, used_lt, used-add-free,
  end_space_lem,
}
use xbeepocs.Cbuf.Contents.{contents, cyclic, length-cyclic, cyclic_keep, cyclic_extend}

-- Where the tail stands: just past the used bytes, perhaps one turn further.
tail_at :
    {c : Cbuf} → IsValid c → (c.head + used c ≡ c.tail) ⊎ (c.head + used c ≡ c.tail + (c.mask + 1))
tail_at {c} v = elim (dec_lt c.tail c.head) [
  | yes p ↦ inr (omega (arith, used_lt v p, v.head_in))
  | no p ↦ inl (omega (arith, used_le v (omega arith)))
]

-- A buffer whose tail moved on by `n` bytes, with room for them, is valid and holds `n` more.
module _ {c : Cbuf} (v : IsValid c) (bytes : List ℕ) (t n : ℕ) where
  abbrev moved : Cbuf
  moved = record c { bytes = bytes; tail = t }

  moved-IsValid : length bytes ≡ length c.bytes → t ≤ c.mask → IsValid moved
  moved-IsValid e h = record {
    bits = v.bits;
    size = v.size;
    bits_le = v.bits_le;
    at_least = v.at_least;
    head_in = v.head_in;
    tail_in = h;
    room = omega (arith, v.room);
  }

  used-moved :
      IsValid moved
      → (c.tail + n ≡ t) ⊎ (c.tail + n ≡ t + (c.mask + 1))
      → n ≤ free c
      → used moved ≡ used c + n
  used-moved w step fits = elim (dec_lt c.tail c.head) [
    | yes p ↦ elim (dec_lt t c.head) [
      | yes q ↦ omega (arith, used_lt v p, used_lt w q, used-add-free v, v.head_in)
      | no q ↦
          omega (arith, used_lt v p, used_le w (omega arith), used-add-free v, v.head_in, w.tail_in)
    ]
    | no p ↦ elim (dec_lt t c.head) [
      | yes q ↦
          omega (arith, used_le v (omega arith), used_lt w q, used-add-free v, v.tail_in, v.head_in)
      | no q ↦
          omega
            (arith, used_le v (omega arith), used_le w (omega arith), used-add-free v, v.tail_in)
    ]
  ]

-- What `xbee_cbuf_putch` and `xbee_cbuf_put` promise: `added` was appended to the queue.
pub record Appended (c d : Cbuf) (added : List ℕ) : Type 0 where
  pub valid : IsValid d
  pub queue : contents d ≡ contents c ++ added
  pub capacity : d.mask ≡ c.mask

Appended-trans :
    {c d e : Cbuf} (xs ys : List ℕ) → Appended c d xs → Appended d e ys → Appended c e (xs ++ ys)
Appended-trans {c} xs ys p q = record {
  valid = q.valid;
  queue = q.queue ∙ ap (λ l. l ++ ys) p.queue ∙ append_assoc (contents c) xs ys;
  capacity = q.capacity ∙ p.capacity;
}

pub Appended-used : {c d : Cbuf} (xs : List ℕ) → Appended c d xs → used d ≡ used c + length xs
Appended-used {c} {d} xs p = omega (
  arith,
  ap (length {0}) p.queue,
  length-append {0} (contents c) xs,
  length-cyclic c.bytes (c.mask + 1) c.head (used c),
  length-cyclic d.bytes (d.mask + 1) d.head (used d),
)

-- One `memcpy` to the tail, with the tail moved past it.
module _ {c : Cbuf} (v : IsValid c) (xs : List ℕ) (t : ℕ) where
  append_at :
      (c.tail + length xs ≡ t) ⊎ (c.tail + length xs ≡ t + (c.mask + 1))
      → t ≤ c.mask
      → c.tail + length xs ≤ c.mask + 1
      → length xs ≤ free c
      → Appended c (record c { bytes = splice c.bytes c.tail xs; tail = t }) xs
  append_at step h fits_array fits = record {
    valid = w;
    queue = ap (λ u. cyclic (splice c.bytes c.tail xs) (c.mask + 1) c.head u) grown ∙ extended;
    capacity = refl;
  }
    where
      w : IsValid (moved v (splice c.bytes c.tail xs) t (length xs))
      w =
          moved-IsValid v (splice c.bytes c.tail xs) t (length xs) (length-splice xs c.bytes c.tail)
            h

      grown : used (moved v (splice c.bytes c.tail xs) t (length xs)) ≡ used c + length xs
      grown = used-moved v (splice c.bytes c.tail xs) t (length xs) w step fits

      extended :
          cyclic (splice c.bytes c.tail xs) (c.mask + 1) c.head (used c + length xs)
          ≡ contents c ++ xs
      extended =
          cyclic_extend c.bytes xs (c.mask + 1) c.head (used c) c.tail (omega (arith, v.head_in))
            (tail_at v) fits_array (omega (arith, used-add-free v)) (omega (arith, v.room))

abbrev next_tail : Cbuf → ℕ
next_tail c = bit_and (u32 (c.tail + 1)) c.mask

-- The next tail meets the head exactly when no byte is free.
module _ {c : Cbuf} (v : IsValid c) where
  next_tail_cases :
      ((c.tail < c.mask) × (next_tail c ≡ c.tail + 1)) ⊎ ((c.tail ≡ c.mask) × (next_tail c ≡ 0))
  next_tail_cases = elim (dec_lt c.tail c.mask) [
    | yes p ↦ inl (p, next_index_lt v c.tail p)
    | no p ↦
        let e : c.tail ≡ c.mask = omega (arith, v.tail_in) in inr (e, next_index_wrap v c.tail e)
  ]

  free-next_tail : (free c ≡ 0 → next_tail c ≡ c.head) × (0 < free c → next_tail c ≢ c.head)
  free-next_tail = elim (dec_lt c.tail c.head) [
    | yes p ↦ (
      λ z. omega (arith, next_tail_cases, used_lt v p, used-add-free v, v.head_in),
      λ z e. absurd (omega (arith, next_tail_cases, used_lt v p, used-add-free v, v.head_in)),
    )
    | no p ↦ (
      λ z. omega (arith, next_tail_cases, used_le v (omega arith), used-add-free v, v),
      λ z e. absurd (omega (arith, next_tail_cases, used_le v (omega arith), used-add-free v, v)),
    )
  ]

  -- A valid buffer that is full refuses the byte, returns 0 and keeps its queue; one that is not
  -- returns 1 and appends the byte, cut to 8 bits. Either way it stays valid, with its capacity.
  pub putch_lem :
      (ch : ℕ)
      → (free c ≡ 0 → ((putch c ch).0 ≡ 0) × Appended c (putch c ch).1 [])
        × (0 < free c → ((putch c ch).0 ≡ 1) × Appended c (putch c ch).1 (u8 ch ∷ []))
  unfolding putch
  putch_lem ch = (λ z. full (free-next_tail.0 z), λ z. room z (free-next_tail.1 z))
    where
      stored : List ℕ
      stored = set c.bytes c.tail (u8 ch)

      full : next_tail c ≡ c.head → ((putch c ch).0 ≡ 0) × Appended c (putch c ch).1 []
      full e = let test : (next_tail c == c.head) ≡ true = ground arith in rw test (refl, refused)
        where
          w : IsValid (moved v stored c.tail 0)
          w = moved-IsValid v stored c.tail 0 (length-set c.bytes c.tail (u8 ch)) v.tail_in

          refused : Appended c (record c { bytes = stored }) []
          refused = record {
            valid = w;
            queue =
                ap (λ u. cyclic stored (c.mask + 1) c.head u)
                  (used-moved v stored c.tail 0 w (inl (omega arith)) (omega arith)
                    ∙ add-zero (used c))
                ∙ cyclic_keep c.bytes (u8 ch ∷ []) (c.mask + 1) c.head (used c) c.tail
                    (omega (arith, v.head_in)) (tail_at v) (omega (arith, v.tail_in))
                    (omega (arith, used-add-free v))
                ∙ sym (append-nil (contents c));
            capacity = refl;
          }

      room :
          0 < free c
          → next_tail c ≢ c.head
          → ((putch c ch).0 ≡ 1) × Appended c (putch c ch).1 (u8 ch ∷ [])
      room z ne =
          let test : (next_tail c == c.head) ≡ false = ground arith in
          rw test (
            refl,
            append_at v (u8 ch ∷ []) (next_tail c) (omega (arith, next_tail_cases))
                (omega (arith, next_tail_cases, v.at_least)) (omega (arith, v.tail_in))
                (omega arith),
          )

  -- `xbee_cbuf_put` on a valid buffer copies as many bytes as are asked for and fit, returns their
  -- number, and appends exactly those, in order; the buffer stays valid, with its capacity.
  pub put_lem :
      (buffer : List ℕ) (n : ℕ)
      → n ≤ length buffer
      → ((put c buffer n).0 ≡ min n (free c))
        × Appended c (put c buffer n).1 (take (min n (free c)) buffer)
  unfolding put
  put_lem buffer n h = elim (dec_le e k) [
    | yes p ↦
        let test : leb e (clip n (free c)) ≡ true = ground (arith, clip_min, e_lem) in
        rw test (rw clip_min (omega (arith, mask_small v, used-add-free v), wrapped p))
    | no p ↦
        let test : leb e (clip n (free c)) ≡ false = ground (arith, clip_min, e_lem) in
        rw test (
          rw clip_min (
            omega (arith, mask_small v, used-add-free v),
            append_at v (take k buffer) (u32 (c.tail + k))
                (inl (omega (arith, len, small, e_lem, mask_small v)))
                (omega (arith, e_lem, mask_small v)) (omega (arith, len, e_lem))
                (omega (arith, len)),
          ))
  ]
    where
      k : ℕ
      k = min n (free c)

      e : ℕ
      e = end_space c.mask c.tail

      clip_min : clip n (free c) ≡ k
      clip_min = ground arith

      e_lem : e ≡ c.mask + 1 - c.tail
      e_lem = end_space_lem v c.tail v.tail_in

      len : length (take k buffer) ≡ k
      len = omega (arith, length-take k buffer)

      small : k < 2 ^ 32
      small = omega (arith, mask_small v, used-add-free v)

      rest : List ℕ
      rest = take (k - e) (drop e buffer)

      wrapped :
          e ≤ k
          → Appended c
              (record c {
                tail = u32 (0 + (k - e));
                bytes = splice (splice c.bytes c.tail (take e buffer)) 0 rest;
              })
              (take k buffer)
      wrapped p =
          subst
            (λ l.
              Appended c
                (record c {
                  tail = u32 (0 + (k - e));
                  bytes = splice (splice c.bytes c.tail (take e buffer)) 0 rest;
                })
                l)
            (take-append-take-drop e k buffer p)
            (Appended-trans (take e buffer) rest to_end (
              append_at to_end.valid rest (u32 (0 + (k - e))) (inl (omega (arith, rest_len, small)))
                (omega (arith, used-add-free v, e_lem, small))
                (omega (arith, used-add-free v, e_lem, rest_len))
                (omega (
                  arith,
                  rest_len,
                  first_len,
                  Appended-used (take e buffer) to_end,
                  used-add-free v,
                  used-add-free to_end.valid,
                ))))
        where
          first_len : length (take e buffer) ≡ e
          first_len = omega (arith, length-take e buffer)

          rest_len : length rest ≡ k - e
          rest_len = omega (arith, length-take (k - e) (drop e buffer), length-drop e buffer)

          to_end :
              Appended c
                (record c { bytes = splice c.bytes c.tail (take e buffer); tail = 0 })
                (take e buffer)
          to_end =
              append_at v (take e buffer) 0 (inr (omega (arith, first_len, e_lem, v.tail_in)))
                (omega arith) (omega (arith, first_len, e_lem, v.tail_in))
                (omega (arith, first_len))

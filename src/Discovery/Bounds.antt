-- ===== src/Discovery/Bounds.antt =====
-- xbee_discovery.c: when reading a message leaves the message.
use xbeepocs.Base.{
  ==_iff, Bool-cases, List, [], arith, false, inl, inr, length, length-append, ltb, ltb→lt, none,
  refl, some, suc, zero, ℕ, ◌++◌, ◌+◌, ◌<◌, ◌==◌, ◌↔◌, ◌∷◌, ◌≡◌, ◌≢◌, ◌≤◌, ◌⊎◌,
}
use xbeepocs.Discovery.{
  max_nodeid_len, node_info_offset, strlen, parse_short, parse_long, to_parsed, nd_parse,
}
use xbeepocs.Discovery.Messages.{IsName, Addresses, start, strlen-name}

strlen-open : (name : List ℕ) → IsName name → strlen name ≡ none
unfolding strlen
strlen-open [] named = refl
strlen-open (zero ∷ name) named = absurd (omega (arith, named.0))
strlen-open (suc b ∷ name) named = rw (strlen-open name named.1, strlen) refl

-- What makes the reading of a message leave it: an empty name that nothing follows, or one or two
-- bytes after the name.
abbrev pub IsCut : List ℕ → List ℕ → Type 0
IsCut name after = (length name + length after ≡ 0) ⊎ ((0 < length after) × (length after < 3))

parse_short-IsCut :
    (source name : List ℕ)
    → (to_parsed (parse_short source (length name)) ≡ none) ↔ (length name ≡ 0)
unfolding parse_short
parse_short-IsCut source [] = (λ e. refl, λ e. refl)
parse_short-IsCut source (b ∷ name) = (λ e. cc, λ e. absurd (omega (arith, e)))

parse_long-IsCut :
    (source : List ℕ) (n : ℕ)
    → (to_parsed (parse_long source n) ≡ none) ↔ (length source < node_info_offset + n + 4)
unfolding parse_long
parse_long-IsCut source n = elim (Bool-cases (ltb (length source) (node_info_offset + n + 4))) [
  | inl less ↦ rw (less, parse_long) (λ e. ltb→lt _ _ less, λ lt. refl)
  | inr enough ↦ rw (enough, parse_long) (λ e. cc, λ lt. absurd (ground (arith, enough)))
]

-- A message whose length is given and that ends where its memory ends, with a name of at most 20
-- bytes. Without a zero after the name, `xbee_disc_nd_parse` reads on behind the message. With
-- one, it stays inside unless the name is empty and is the end of the message, where SIZE_MAX
-- bytes are copied, or one or two bytes follow the name, which are taken for parent and type.
pub nd_parse-IsCut :
    (a : Addresses) (name after : List ℕ)
    → IsName name
    → length name ≤ max_nodeid_len
    → (nd_parse (some (start a name)) (length (start a name)) ≡ none)
      × ((nd_parse (some (start a (name ++ 0 ∷ after))) (length (start a (name ++ 0 ∷ after)))
            ≡ none)
          ↔ IsCut name after)
unfolding nd_parse
nd_parse-IsCut a name after named short =
    let open_size : ltb (length (start a name)) node_info_offset ≡ false = ground arith in
    let whole = start a (name ++ 0 ∷ after) in
    let sized : length whole ≡ node_info_offset + length name + 1 + length after =
      omega (arith, length-append name (0 ∷ after)) in
    let size : ltb (length whole) node_info_offset ≡ false = ground (arith, sized) in
    let fits : ltb max_nodeid_len (length name) ≡ false = ground (arith, short) in
    (
      rw (open_size, strlen-open name named, nd_parse) refl,
      elim (Bool-cases (node_info_offset + length name + 1 == length whole)) [
        | inl ends ↦
            let eq = (==_iff _ _).0 ends in
            let cut = parse_short-IsCut whole name in
            rw (size, strlen-name name after named, fits, ends, nd_parse)
              (
                λ e. inl (omega (arith, cut.0 e, eq, sized)),
                λ is_cut. cut.1 (elim is_cut [
                  | inl nothing ↦ omega (arith, nothing)
                  | inr (some_after, few) ↦ absurd (omega (arith, eq, sized, some_after))
                ]),
              )
        | inr goes_on ↦
            let ne : node_info_offset + length name + 1 ≢ length whole = ground (arith, goes_on) in
            let cut = parse_long-IsCut whole (length name) in
            rw (size, strlen-name name after named, fits, goes_on, nd_parse)
              (
                λ e. inr (omega (arith, ne, sized), omega (arith, cut.0 e, sized)),
                λ is_cut. cut.1 (elim is_cut [
                  | inl nothing ↦ absurd (omega (arith, ne, sized, nothing))
                  | inr (some_after, few) ↦ omega (arith, sized, few)
                ]),
              )
      ],
    )

-- ===== src/Discovery/Tests.antt =====
-- xbee_discovery.c: a message from the node "AB", and one that is cut after the name.
use xbeepocs.Base.{List, Option, [], arith, length, none, replicate, some, ℕ, ◌++◌, ◌↔◌, ◌∷◌, ◌≡◌}
use xbeepocs.Discovery.{NodeId, nd_parse}
use xbeepocs.Discovery.Messages.{Addresses, message, start}
use xbeepocs.Discovery.Bounds.{IsCut, nd_parse-IsCut}

abbrev addresses : Addresses
addresses = record {
  high = 0xff;
  low = 0xfe;
  a0 = 0;
  a1 = 0x13;
  a2 = 0xa2;
  a3 = 0;
  a4 = 0x41;
  a5 = 0x55;
  a6 = 1;
  a7 = 2;
}

abbrev noting : ℕ → Option NodeId → List (Option NodeId) → List (Option NodeId)
noting h id w = id ∷ w

abbrev frame : List ℕ
frame = 0x95 ∷ replicate 11 0 ++ message addresses (65 ∷ 66 ∷ []) 0xff 0xfe 1 (replicate 10 0)

nd_parse-IsCut_example :
    (nd_parse (some (start addresses (65 ∷ []))) (length (start addresses (65 ∷ []))) ≡ none)
    × ((nd_parse
            (some (start addresses (65 ∷ 0 ∷ 7 ∷ [])))
            (length (start addresses (65 ∷ 0 ∷ 7 ∷ [])))
          ≡ none)
        ↔ IsCut (65 ∷ []) (7 ∷ []))
nd_parse-IsCut_example = nd_parse-IsCut addresses (65 ∷ []) (7 ∷ []) (omega arith, tt) (omega arith)

-- ===== src/Discovery/Messages.antt =====
-- xbee_discovery.c: messages as a module sends them come to the handler as they were.
use xbeepocs.Base.{
  List, [], arith, length, refl, some, suc, zero, ℕ, ◌*◌, ◌++◌, ◌+◌, ◌<◌, ◌^◌, ◌∷◌, ◌≡◌,
}
use xbeepocs.Discovery.{NodeId, strlen, padded_name}

-- A name has no zero byte in it.
abbrev pub IsName : List ℕ → Type 0
IsName [] = Unit
IsName (b ∷ bs) = (0 < b) × IsName bs

pub strlen-name :
    (name after : List ℕ) → IsName name → strlen (name ++ 0 ∷ after) ≡ some (length name)
unfolding strlen
strlen-name [] after named = refl
strlen-name (zero ∷ name) after named = absurd (omega (arith, named.0))
strlen-name (suc b ∷ name) after named = rw (strlen-name name after named.1, strlen) refl

-- What precedes the name: network address and 64-bit address.
pub record Addresses : Type 0 where
  pub high : ℕ
  pub low : ℕ
  pub a0 : ℕ
  pub a1 : ℕ
  pub a2 : ℕ
  pub a3 : ℕ
  pub a4 : ℕ
  pub a5 : ℕ
  pub a6 : ℕ
  pub a7 : ℕ

abbrev pub ieee : Addresses → List ℕ
ieee a = a.a0 ∷ a.a1 ∷ a.a2 ∷ a.a3 ∷ a.a4 ∷ a.a5 ∷ a.a6 ∷ a.a7 ∷ []

abbrev pub start : Addresses → List ℕ → List ℕ
start a tail = a.high ∷ a.low ∷ a.a0 ∷ a.a1 ∷ a.a2 ∷ a.a3 ∷ a.a4 ∷ a.a5 ∷ a.a6 ∷ a.a7 ∷ tail

-- The message with parent address and type, and what else follows.
abbrev pub message : Addresses → List ℕ → (parent_high parent_low type : ℕ) → List ℕ → List ℕ
message a name parent_high parent_low type more =
    start a (name ++ 0 ∷ parent_high ∷ parent_low ∷ type ∷ more)

abbrev pub node : Addresses → List ℕ → (parent_high parent_low type : ℕ) → NodeId
node a name parent_high parent_low type = record {
  ieee_addr = ieee a;
  network_addr = a.high * 2 ^ 8 + a.low;
  parent_addr = parent_high * 2 ^ 8 + parent_low;
  device_type = type;
  node_info = padded_name name;
}

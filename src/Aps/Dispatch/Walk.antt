-- ===== src/Aps/Dispatch/Walk.antt =====
-- wpan_aps.c: the entries that a walk through an endpoint table comes to.
use xbeepocs.Base.{
  Bool, Bool-cases, List, Option, [], ap, arith, drop, get_elem?, get_or, if◌then◌else◌, inl, inr,
  length, none, refl, some, suc, zero, ℕ, ◌+◌, ◌<◌, ◌==◌, ◌∙◌, ◌∷◌, ◌≡◌, ◌⊎◌,
}
use xbeepocs.Aps.Dispatch.{
  EndpointEntry, end_of_list, no_entry, endpoint_get_next, is_match, first_from, endpoint_match,
  has_cluster, endpoint_of_cluster,
}

-- The entries before the one with the number 255.
unfoldable pub until_end : List EndpointEntry → List EndpointEntry
until_end [] = []
until_end (e ∷ es) = let rest = until_end es in if e.endpoint == 0xff then [] else e ∷ rest

-- The first entry of a table is never taken for its end.
unfoldable pub visible : List EndpointEntry → List EndpointEntry
unfolding until_end
visible [] = []
visible (e ∷ es) = e ∷ until_end es

pub drop-get_elem? :
    (es rest : List EndpointEntry) (i : ℕ) (e : EndpointEntry)
    → drop i es ≡ e ∷ rest
    → (get_elem? es i ≡ some e) × (get_or es i no_entry ≡ e) × (drop (suc i) es ≡ rest)
drop-get_elem? [] rest zero e h = (cc, cc, cc)
drop-get_elem? [] rest (suc i) e h = (cc, cc, cc)
drop-get_elem? (x ∷ es) rest zero e h = (cc, cc, cc)
drop-get_elem? (x ∷ es) rest (suc i) e h = drop-get_elem? es rest i e h

drop-past : (es : List EndpointEntry) (i : ℕ) → drop i es ≡ [] → get_elem? es i ≡ none
drop-past [] i h = refl
drop-past (x ∷ es) zero h = cc
drop-past (x ∷ es) (suc i) h = drop-past es i h

-- Where a walk goes from an entry that the rest of the table follows.
pub data Step (table : List EndpointEntry) (i : ℕ) (rest : List EndpointEntry) : Type 0 where
  stop : endpoint_get_next table (some i) ≡ none → until_end rest ≡ [] → Step table i rest
  next :
      (e : EndpointEntry) (es : List EndpointEntry)
      → rest ≡ e ∷ es
      → endpoint_get_next table (some i) ≡ some (i + 1)
      → get_or table (i + 1) no_entry ≡ e
      → drop (i + 1 + 1) table ≡ es
      → until_end rest ≡ e ∷ until_end es
      → Step table i rest

pub walk_step :
    (table : List EndpointEntry) (i : ℕ) (rest : List EndpointEntry)
    → drop (i + 1) table ≡ rest
    → Step table i rest
unfolding endpoint_get_next until_end
walk_step table i [] h = stop (rw (drop-past table (i + 1) h, endpoint_get_next) refl) refl
walk_step table i (e ∷ es) h =
    let at = drop-get_elem? table es (i + 1) e h in
    elim (Bool-cases (e.endpoint == end_of_list)) [
      | inl ends ↦ stop (rw (at.0, ends, endpoint_get_next) refl) (rw ends refl)
      | inr goes ↦
          next e es refl (rw (at.0, goes, endpoint_get_next) refl) at.1
            (ap (λ k. drop k table) {y = suc (i + 1)} (omega arith) ∙ at.2) (rw goes refl)
    ]

unfoldable pub find : (EndpointEntry → Bool) → List EndpointEntry → Option EndpointEntry
find test [] = none
find test (e ∷ es) = let rest = find test es in if test e then some e else rest

first_from-find :
    (table : List EndpointEntry) (test : EndpointEntry → Bool) (n i : ℕ) (rest : List EndpointEntry)
    → drop (i + 1) table ≡ rest
    → length rest < n
    → first_from table test n (some i) ≡ find test (until_end rest)
unfolding first_from find
first_from-find table test zero i rest h lt = absurd (omega arith)
first_from-find table test (suc n) i rest h lt = elim (walk_step table i rest h) [
  | stop none_next nothing ↦ rw (none_next, nothing, first_from) refl
  | next e es split goes here after whole ↦
      let fewer : length rest ≡ length es + 1 = rw split (omega arith) in
      let go_on = first_from-find table test n (i + 1) es after (omega (arith, fewer)) in
      rw (goes, here, whole, first_from) (ap (λ r. if test e then some e else r) go_on)
]

-- The walk finds the first visible entry.
first_find :
    (table : List EndpointEntry) (test : EndpointEntry → Bool)
    → first_from table test (suc (length table)) none ≡ find test (visible table)
unfolding first_from endpoint_get_next visible find
first_find [] test = refl
first_find (e ∷ es) test =
    ap (λ r. if test e then some e else r)
      (first_from-find (e ∷ es) test (suc (length es)) 0 es refl (omega arith))

pub endpoint_match-find :
    (table : List EndpointEntry) (endpoint profile_id : ℕ)
    → endpoint_match table endpoint profile_id ≡ find (is_match endpoint profile_id) (visible table)
unfolding endpoint_match
endpoint_match-find table endpoint profile_id = first_find table (is_match endpoint profile_id)

-- `wpan_endpoint_of_cluster` is the first visible endpoint of the profile with such a cluster.
pub endpoint_of_cluster-find :
    (table : List EndpointEntry) (profile_id cluster_id mask : ℕ)
    → endpoint_of_cluster table profile_id cluster_id mask
      ≡ find (has_cluster profile_id cluster_id mask) (visible table)
unfolding endpoint_of_cluster
endpoint_of_cluster-find table profile_id cluster_id mask =
    first_find table (has_cluster profile_id cluster_id mask)

-- The first entry of a list with a property, or none when none has it.
pub data IsFirst (P : EndpointEntry → Type 0)
    : List EndpointEntry → Option EndpointEntry → Type 0 where
  no_more : IsFirst P [] none
  this : {e : EndpointEntry} {es : List EndpointEntry} → P e → IsFirst P (e ∷ es) (some e)
  later :
      {e : EndpointEntry} {es : List EndpointEntry} {o : Option EndpointEntry}
      → ¬ P e
      → IsFirst P es o
      → IsFirst P (e ∷ es) o

-- The endpoint has a number, and a profile, or any for 0xffff.
abbrev pub IsAt : ℕ → ℕ → EndpointEntry → Type 0
IsAt endpoint profile_id e =
    (e.endpoint ≡ endpoint) × ((profile_id ≡ 0xffff) ⊎ (e.profile_id ≡ profile_id))

pub find-IsFirst :
    (endpoint profile_id : ℕ) (es : List EndpointEntry)
    → IsFirst (IsAt endpoint profile_id) es (find (is_match endpoint profile_id) es)
unfolding find
find-IsFirst endpoint profile_id [] = no_more
find-IsFirst endpoint profile_id (e ∷ es) = elim (Bool-cases (is_match endpoint profile_id e)) [
  | inl hit ↦ rw (hit, find) (this (ground (arith, hit)))
  | inr miss ↦
      rw (miss, find) (later (λ at. ground (arith, miss, at)) (find-IsFirst endpoint profile_id es))
]

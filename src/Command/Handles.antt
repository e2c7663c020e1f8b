-- ===== src/Command/Handles.antt =====
-- The handles of requests: `xbee_cmd_create`, `xbee_cmd_release_handle` and stale handles.
use xbeepocs.Base.{
  Bool-cases, List, Option, Ret, [], ap, arith, enospc, fail, false, get_or-set_ne, get_or-set_self,
  if◌then◌else◌, inl, inr, leb, length, length-set, none, refl, ret, set, some, subst, suc, sym,
  true, zero, ℕ, ◌%◌, ◌*◌, ◌+◌, ◌-◌, ◌/◌, ◌<◌, ◌==◌, ◌^◌, ◌∙◌, ◌∷◌, ◌≡◌, ◌≢◌, ◌≤◌,
}
use xbeepocs.Command.{
  Request, Table, tablesize, cleared, get_request, handle_to_address, with_request, find_free,
  create, released, release_handle,
}

-- A table of the right size whose sequence numbers are bytes.
pub record IsTable (t : Table) : Type 0 where
  pub size : length t ≡ tablesize
  pub sequences : (i : ℕ) → (get_request t i).sequence < 2 ^ 8

-- What a valid handle says: its high byte is the index, its low byte the sequence number.
pub inversion :
    (t : Table) (k i : ℕ)
    → handle_to_address t (ret k) ≡ some i
    → (k < tablesize * 2 ^ 8) × (i ≡ k / 2 ^ 8) × ((get_request t i).sequence ≡ k % 2 ^ 8)
unfolding handle_to_address
inversion t k i e = elim (Bool-cases (leb (tablesize * 2 ^ 8) k)) [
  | inl out ↦ cc (rw out at e)
  | inr within ↦ elim (Bool-cases ((get_request t (k / 2 ^ 8)).sequence == k % 2 ^ 8)) [
    | inl same ↦
        let index : k / 2 ^ 8 ≡ i = cc (rw (within, same) at e) in
        let low : (get_request t (k / 2 ^ 8)).sequence ≡ k % 2 ^ 8 = ground (arith, same) in
        (
          ground (arith, within),
          sym index,
          subst (λ j. (get_request t j).sequence ≡ k % 2 ^ 8) index low,
        )
    | inr other ↦ cc (rw (within, other) at e)
  ]
]

-- The handle of an entry is valid.
pub valid :
    (t : Table) (i : ℕ)
    → i < tablesize
    → (get_request t i).sequence < 2 ^ 8
    → handle_to_address t (ret (i * 2 ^ 8 + (get_request t i).sequence)) ≡ some i
unfolding handle_to_address
valid t i lt small =
    let index : (i * 2 ^ 8 + (get_request t i).sequence) / 2 ^ 8 ≡ i = omega arith in
    let low : (i * 2 ^ 8 + (get_request t i).sequence) % 2 ^ 8 ≡ (get_request t i).sequence =
      omega arith in
    let within : leb (tablesize * 2 ^ 8) (i * 2 ^ 8 + (get_request t i).sequence) ≡ false =
      ground arith in
    let same : ((get_request t i).sequence == (get_request t i).sequence) ≡ true = ground arith in
    rw (within, index, low, same)

-- A handle with another sequence number than the entry's is not.
pub stale :
    (t : Table) (k : ℕ)
    → (get_request t (k / 2 ^ 8)).sequence ≢ k % 2 ^ 8
    → handle_to_address t (ret k) ≡ none
unfolding handle_to_address
stale t k ne =
    let other : ((get_request t (k / 2 ^ 8)).sequence == k % 2 ^ 8) ≡ false = ground (arith, ne) in
    elim (Bool-cases (leb (tablesize * 2 ^ 8) k)) [
      | inl out ↦ rw out
      | inr within ↦ rw (within, other)
    ]

pub with_valid :
    (t : Table) (handle : Ret) (i : ℕ) (change : Request → Request)
    → handle_to_address t handle ≡ some i
    → with_request t handle change ≡ (ret 0, set t i (change (get_request t i)))
unfolding with_request
with_valid t handle i change e = rw (with_request, e)

-- An entry that is changed stays the only one that is.
pub get_request-set :
    (t : Table) (i : ℕ) (r : Request)
    → i < length t
    → (get_request (set t i r) i ≡ r)
      × ((j : ℕ) → i ≢ j → get_request (set t i r) j ≡ get_request t j)
get_request-set t i r lt =
    (get_or-set_self t i r (cleared 0) lt, λ j ne. get_or-set_ne t i j r (cleared 0) ne)

pub set-IsTable :
    (t : Table) (i : ℕ) (r : Request)
    → IsTable t
    → i < length t
    → r.sequence < 2 ^ 8
    → IsTable (set t i r)
set-IsTable t i r v lt small = record {
  size = length-set t i r ∙ v.size;
  sequences = λ j. elim (Bool-cases (i == j)) [
    | inl same ↦
        let eq : i ≡ j = ground (arith, same) in
        subst (λ m. (get_request (set t i r) m).sequence < 2 ^ 8) eq
          (subst (λ q. q.sequence < 2 ^ 8) (sym (get_request-set t i r lt).0) small)
    | inr ne ↦
        subst (λ q. q.sequence < 2 ^ 8)
          (sym ((get_request-set t i r lt).1 j (λ e. absurd (ground (arith, ne, e)))))
          (v.sequences j)
  ];
}

-- In a table of the right size whose sequence numbers are bytes, releasing a valid handle returns
-- 0, frees its entry, changes no other, and makes the handle invalid; the table stays such a
-- table.
pub release_handle_lem :
    (t : Table) (k i : ℕ)
    → IsTable t
    → handle_to_address t (ret k) ≡ some i
    → let t' = (release_handle t (ret k)).1 in
      ((release_handle t (ret k)).0 ≡ ret 0)
      × ((get_request t' i).in_use ≡ false)
      × ((j : ℕ) → i ≢ j → get_request t' j ≡ get_request t j)
      × (handle_to_address t' (ret k) ≡ none)
      × IsTable t'
unfolding release_handle
release_handle_lem t k i v e =
    let r = get_request t i in
    let t' = set t i (released r) in
    let (bound, index, low) = inversion t k i e in
    let lt : i < length t = omega (arith, bound, index, v.size) in
    let (now, others) = get_request-set t i (released r) lt in
    let moved : (get_request t' i).sequence ≢ k % 2 ^ 8 = λ same.
      let bumped = ap (λ q. q.sequence) now in
      absurd (omega (arith, same, bumped, low, v.sequences i)) in
    rw (with_valid t (ret k) i released e) (
      refl,
      ap (λ q. q.in_use) now,
      others,
      stale t' k (subst (λ m. (get_request t' m).sequence ≢ k % 2 ^ 8) index moved),
      set-IsTable t i (released r) v lt (omega arith),
    )

-- What a search that starts to count at `i` says of the entries: none is free, or the one found is.
abbrev Found : Table → ℕ → Option ℕ → Type 0
Found t i none = (j : ℕ) → j < length t → (get_request t j).in_use ≡ true
Found t i (some k) = (i ≤ k) × (k < i + length t) × ((get_request t (k - i)).in_use ≡ false)

past :
    (r : Request) (t : Table) (i : ℕ) (o : Option ℕ)
    → r.in_use ≡ true
    → Found t (i + 1) o
    → Found (r ∷ t) i o
past r t i none used all = λ j lt. at j lt
  where
    at : (j : ℕ) → j < length (r ∷ t) → (get_request (r ∷ t) j).in_use ≡ true
    at zero lt = used
    at (suc j) lt = all j (omega arith)
past r t i (some k) used (lo, hi, free) =
    let back : suc (k - (i + 1)) ≡ k - i = omega arith in
    (omega arith, omega arith, subst (λ m. (get_request (r ∷ t) m).in_use ≡ false) back free)

find_free_lem : (t : Table) (i : ℕ) → Found t i (find_free t i)
unfolding find_free
find_free_lem [] i = λ j lt. absurd (omega arith)
find_free_lem (r ∷ t) i = elim (Bool-cases r.in_use) [
  | inl used ↦
      subst (λ b. Found (r ∷ t) i (if b then find_free t (i + 1) else some i)) (sym used)
        (past r t i (find_free t (i + 1)) used (find_free_lem t (i + 1)))
  | inr free ↦
      let back : i - i ≡ 0 = omega arith in
      subst (λ b. Found (r ∷ t) i (if b then find_free t (i + 1) else some i)) (sym free)
        (omega arith, omega arith, ap (λ m. (get_request (r ∷ t) m).in_use) back ∙ free)
]

-- An entry just taken for a request: nothing of an earlier one is left but the sequence number.
abbrev pub taken : Request → ℕ → List ℕ → Request
taken r timeout command = record (cleared r.sequence) {
  in_use = true;
  timeout = timeout;
  command = command;
}

-- Both outcomes of `xbee_cmd_create`: all entries are in use, or entry `i` was taken.
pub data Created (t : Table) (timeout : ℕ) (command : List ℕ) : Type 0 where
  full :
      create t timeout command ≡ (fail enospc, t)
      → ((j : ℕ) → j < tablesize → (get_request t j).in_use ≡ true)
      → Created t timeout command
  took :
      (i k : ℕ)
      → (get_request t i).in_use ≡ false
      → create t timeout command ≡ (ret k, set t i (taken (get_request t i) timeout command))
      → handle_to_address (create t timeout command).1 (ret k) ≡ some i
      → get_request (create t timeout command).1 i ≡ taken (get_request t i) timeout command
      → ((j : ℕ) → i ≢ j → get_request (create t timeout command).1 j ≡ get_request t j)
      → IsTable (create t timeout command).1
      → Created t timeout command

-- On a table of the right size whose sequence numbers are bytes, `xbee_cmd_create`, from its
-- search on, either finds an entry that is free, returns a valid handle of it, leaves nothing in
-- it of an earlier request, and changes no other entry; or all entries are in use, and it returns
-- -ENOSPC and changes nothing.
pub create_lem :
    (t : Table) (timeout : ℕ) (command : List ℕ) → IsTable t → Created t timeout command
unfolding create
create_lem t timeout command v = go (find_free t 0) refl (find_free_lem t 0)
  where
    go : (o : Option ℕ) → find_free t 0 ≡ o → Found t 0 o → Created t timeout command
    go none e all =
        let same : create t timeout command ≡ (fail enospc, t) = rw (create, e) in
        full same (λ j lt. all j (omega (arith, v.size)))
    go (some i) e (lo, hi, free) =
        let old = get_request t i in
        let new = taken old timeout command in
        let k = i * 2 ^ 8 + old.sequence in
        let same : create t timeout command ≡ (ret k, set t i new) = rw (create, e) in
        let (now, others) = get_request-set t i new (omega arith) in
        let low : (get_request (set t i new) i).sequence ≡ old.sequence =
          ap (λ q. q.sequence) now in
        let fits : (get_request (set t i new) i).sequence < 2 ^ 8 =
          omega (arith, low, v.sequences i) in
        let found : handle_to_address (set t i new) (ret k) ≡ some i =
          ap (λ m. handle_to_address (set t i new) (ret (i * 2 ^ 8 + m))) (sym low)
          ∙ valid (set t i new) i (omega (arith, v.size)) fits in
        let back = sym (ap (λ p. p.1) same) in
        let whole : i - 0 ≡ i = omega arith in
        took i k (subst (λ m. (get_request t m).in_use ≡ false) whole free) same
          (subst (λ u. handle_to_address u (ret k) ≡ some i) back found)
          (subst (λ u. get_request u i ≡ new) back now)
          (subst (λ u. (j : ℕ) → i ≢ j → get_request u j ≡ get_request t j) back others)
          (subst IsTable back (set-IsTable t i new v (omega arith) (v.sequences i)))

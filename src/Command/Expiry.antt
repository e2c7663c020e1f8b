-- ===== src/Command/Expiry.antt =====
-- The loop of `xbee_cmd_tick` over the entries of the table.
use xbeepocs.Base.{
  Bool, Bool-cases, Option, ap, ap₂, arith, false, if◌then◌else◌, inl, inr, length, length-set, ltb,
  none, refl, some, subst, suc, true, zero, ℕ, ◌&&◌, ◌+◌, ◌-◌, ◌<◌, ◌==◌, ◌∙◌, ◌≡◌, ◌≢◌, ◌≤◌,
}
use xbeepocs.Command.{Request, Table, tablesize, get_request, released}
use xbeepocs.Command.Handles.{get_request-set}
use xbeepocs.Command.Responses.{Response, State, Callbacks, with_entry, call_back}
use xbeepocs.Command.Tick.{expired_response, notify, after_expired, release_expired, due, expire}

-- How many of the last `n` entries are.
unfoldable pub count_due : ℕ → ℕ → Table → ℕ
count_due now zero t = 0
count_due now (suc n) t =
    (if due now (get_request t (tablesize - suc n)) then 1 else 0) + count_due now n t

-- Callbacks that leave the table of requests and the device's refresh flag alone, take no time,
-- and do not use the handle of a request that timed out again.
pub record IsSteady {W : Type 0} (seconds : W → ℕ) (call : Callbacks W) : Type 0 where
  pub table : (c : ℕ) (r : Response) (s : State W) → (call c r s).1.table ≡ s.table
  pub time : (c : ℕ) (r : Response) (s : State W) → seconds (call c r s).1.world ≡ seconds s.world
  pub refresh :
      (c : ℕ) (r : Response) (s : State W)
      → (call c r s).1.dev.flags.query_refresh ≡ s.dev.flags.query_refresh
  pub gives_up :
      (c : ℕ) (r : Response) (s : State W) → r.flags ≡ 0x8000 + 0x000F → (call c r s).0 ≡ false

-- What a tick makes of a request.
abbrev pub survivor : ℕ → Request → Request
survivor now r = if due now r then released r else r

-- The count reads the last `n` entries only.
count_due_same :
    (now n : ℕ) (t t' : Table)
    → n ≤ tablesize
    → ((j : ℕ) → tablesize - n ≤ j → j < tablesize → get_request t' j ≡ get_request t j)
    → count_due now n t' ≡ count_due now n t
unfolding count_due
count_due_same now zero t t' le same = refl
count_due_same now (suc n) t t' le same =
    ap₂ (λ r k. (if due now r then 1 else 0) + k)
      (same (tablesize - suc n) (omega arith) (omega arith))
      (count_due_same now n t t' (omega arith) (λ j lo hi. same j (omega arith) hi))

-- Where no request has run out, the loop changes nothing.
pub expire-none_due :
    {W : Type 0} (seconds : W → ℕ) (call : Callbacks W) (query : State W → State W) (n count : ℕ)
    (s : State W)
    → ((j : ℕ)
        → tablesize - n ≤ j
        → j < tablesize
        → due (seconds s.world) (get_request s.table j) ≡ false)
    → expire seconds call query n count s ≡ some (count, s)
unfolding expire
expire-none_due seconds call query zero count s early = refl
expire-none_due seconds call query (suc n) count s early =
    elim (Bool-cases (ltb (tablesize - suc n) tablesize)) [
      | inl inside ↦
          rw (early (tablesize - suc n) (omega arith) (ground (arith, inside)), expire)
            (expire-none_due seconds call query n count s (λ j lo hi. early j (omega arith) hi))
      | inr outside ↦ absurd (ground (arith, outside))
    ]

and_left : (a b : Bool) → (a && b) ≡ true → a ≡ true
and_left true b h = refl
and_left false b h = cc

module _ {W : Type 0} (seconds : W → ℕ) (call : Callbacks W) (steady : IsSteady seconds call) where
  -- What the callback of an expired request leaves.
  record IsNotified (s : State W) (p : Bool × State W) : Type 0 where
    done : p.0 ≡ false
    table : p.1.table ≡ s.table
    time : seconds p.1.world ≡ seconds s.world
    refresh : p.1.dev.flags.query_refresh ≡ s.dev.flags.query_refresh

  call_back-IsNotified :
      (callback : Option ℕ) (r : Response) (s : State W)
      → r.flags ≡ 0x8000 + 0x000F
      → IsNotified s (call_back call callback r s)
  unfolding call_back
  call_back-IsNotified none r s e = record {
    done = refl;
    table = refl;
    time = refl;
    refresh = refl;
  }
  call_back-IsNotified (some c) r s e = record {
    done = steady.gives_up c r s e;
    table = steady.table c r s;
    time = steady.time c r s;
    refresh = steady.refresh c r s;
  }

  notify-IsNotified : (i : ℕ) (s : State W) → IsNotified s (notify call i s)
  unfolding notify expired_response
  notify-IsNotified i s =
      call_back-IsNotified (get_request s.table i).callback
        (expired_response i (get_request s.table i)) s refl

  module _ (query : State W → State W) where
    -- An entry that is in use and done with is released, with no refresh.
    released_one :
        (i : ℕ) (s s' : State W) (again : Bool)
        → again ≡ false
        → (get_request s'.table i).in_use ≡ true
        → s'.dev.flags.query_refresh ≡ false
        → after_expired query i (again, s') ≡ some (with_entry i released s')
    unfolding after_expired release_expired
    released_one i s s' true e used calm = cc
    released_one i s s' false e used calm = rw (used, calm) refl

    -- The loop over the last `n` entries went through, and treated each as `survivor` says.
    pub record IsSwept (n count : ℕ) (s : State W) (o : Option (ℕ × State W)) : Type 0 where
      pub after : State W
      pub went : o ≡ some (count + count_due (seconds s.world) n s.table, after)
      pub refresh : after.dev.flags.query_refresh ≡ false
      pub size : length after.table ≡ tablesize
      pub before : (j : ℕ) → j < tablesize - n → get_request after.table j ≡ get_request s.table j
      pub rest :
          (j : ℕ)
          → tablesize - n ≤ j
          → j < tablesize
          → get_request after.table j ≡ survivor (seconds s.world) (get_request s.table j)

    -- One more entry, `i`, was left alone.
    skipped :
        (n count : ℕ) (s : State W) (o : Option (ℕ × State W))
        → suc n ≤ tablesize
        → due (seconds s.world) (get_request s.table (tablesize - suc n)) ≡ false
        → IsSwept n count s o
        → IsSwept (suc n) count s o
    unfolding count_due
    skipped n count s o le early h = record {
      after = h.after;
      went = h.went ∙ ap (λ m. some (count + m, h.after)) (rw early (omega arith));
      refresh = h.refresh;
      size = h.size;
      before = λ j lt. h.before j (omega arith);
      rest = λ j lo hi. elim (Bool-cases (j == tablesize - suc n)) [
        | inl same ↦
            let eq : tablesize - suc n ≡ j = ground (arith, same) in
            subst
              (λ i.
                get_request h.after.table i ≡ survivor (seconds s.world) (get_request s.table i))
              eq (rw early (h.before (tablesize - suc n) (omega arith)))
        | inr other ↦ h.rest j (ground (arith, other)) hi
      ];
    }

    -- One more entry, `i`, was released first, which led to `s'`.
    freed_first :
        (n count : ℕ) (s s' : State W) (o : Option (ℕ × State W))
        → suc n ≤ tablesize
        → let i = tablesize - suc n in
          due (seconds s.world) (get_request s.table i) ≡ true
          → get_request s'.table i ≡ released (get_request s.table i)
          → ((j : ℕ) → i ≢ j → get_request s'.table j ≡ get_request s.table j)
          → seconds s'.world ≡ seconds s.world
          → IsSwept n (count + 1) s' o
          → IsSwept (suc n) count s o
    unfolding count_due
    freed_first n count s s' o le late freed others time h =
        let i = tablesize - suc n in
        let now = seconds s.world in
        let same : count_due (seconds s'.world) n s'.table ≡ count_due now n s.table =
          ap (λ m. count_due m n s'.table) time
          ∙ count_due_same now n s.table s'.table (omega arith)
              (λ j lo hi. others j (λ e. absurd (omega (arith, e)))) in
        let sum : count + 1 + count_due (seconds s'.world) n s'.table
            ≡ count
              + ((if due now (get_request s.table i) then 1 else 0) + count_due now n s.table) =
          rw late (omega (arith, same)) in
        record {
          after = h.after;
          went = h.went ∙ ap (λ m. some (m, h.after)) sum;
          refresh = h.refresh;
          size = h.size;
          before = λ j lt. h.before j (omega arith) ∙ others j (λ e. absurd (omega (arith, e)));
          rest = λ j lo hi. elim (Bool-cases (j == i)) [
            | inl equal ↦
                let eq : i ≡ j = ground (arith, equal) in
                subst (λ k. get_request h.after.table k ≡ survivor now (get_request s.table k)) eq
                  (rw late (h.before i (omega arith) ∙ freed))
            | inr other ↦
                h.rest j (ground (arith, other)) hi
                ∙ ap₂ survivor time (others j (λ e. absurd (ground (arith, other, e))))
          ];
        }

    pub expire-IsSwept :
        (n count : ℕ) (s : State W)
        → n ≤ tablesize
        → length s.table ≡ tablesize
        → s.dev.flags.query_refresh ≡ false
        → IsSwept n count s (expire seconds call query n count s)
    unfolding expire count_due
    expire-IsSwept zero count s le size calm = record {
      after = s;
      went = ap (λ m. some (m, s)) (omega arith);
      refresh = calm;
      size = size;
      before = λ j lt. refl;
      rest = λ j lo hi. absurd (omega arith);
    }
    expire-IsSwept (suc n) count s le size calm =
        let i = tablesize - suc n in
        elim (Bool-cases (due (seconds s.world) (get_request s.table i))) [
          | inr early ↦ rw early (
              skipped n count s (expire seconds call query n count s) le early
                (expire-IsSwept n count s (omega arith) size calm))
          | inl late ↦
              let left = notify-IsNotified i s in
              let s1 = (notify call i s).1 in
              let s2 = with_entry i released s1 in
              let entry : get_request s1.table i ≡ get_request s.table i =
                ap (λ t. get_request t i) left.table in
              let room : i < length s1.table =
                omega (arith, ap (λ (t : Table). length t) left.table, size) in
              let now_free = get_request-set s1.table i (released (get_request s1.table i)) room in
              let used = and_left _ _ late in
              let calm' = left.refresh ∙ calm in
              let freed =
                released_one i s s1 (notify call i s).0 left.done (ap (λ r. r.in_use) entry ∙ used)
                  calm' in
              let wide =
                length-set s1.table i (released (get_request s1.table i))
                ∙ ap (λ t. length t) left.table
                ∙ size in
              rw (late, freed)
                (freed_first n count s s2 (expire seconds call query n (count + 1) s2) le late
                  (now_free.0 ∙ ap released entry)
                  (λ j ne. now_free.1 j ne ∙ ap (λ t. get_request t j) left.table) left.time
                  (expire-IsSwept n (count + 1) s2 (omega arith) wide calm'))
        ]

-- ===== src/Command/Timeouts.antt =====
-- `xbee_cmd_tick`: which requests it releases, and that none waits for ever.
use xbeepocs.Base.{
  Bool-cases, ap, arith, false, get_or-past, if◌then◌else◌, inl, inr, length, ltb, none, refl, ret,
  some, subst, sym, true, u16, u8, ℕ, ◌%◌, ◌*◌, ◌+◌, ◌-◌, ◌/◌, ◌<◌, ◌==◌, ◌^◌, ◌↔◌, ◌∙◌, ◌≡◌, ◌≢◌,
  ◌≤◌,
}
use xbeepocs.Command.{
  Request, Table, tablesize, cleared, flag_remote, get_request, handle_to_address, released,
}
use xbeepocs.Command.Handles.{IsTable, stale}
use xbeepocs.Command.Sending.{has_flag, after_send}
use xbeepocs.Command.Responses.{State, Callbacks, set_timeout_sec, check_timeout_sec}
use xbeepocs.Command.Tick.{due, cmd_tick}
use xbeepocs.Command.Expiry.{count_due, survivor, IsSteady, expire-IsSwept}

-- A timeout of fewer than 2 ^ 15 seconds, set at `start` and checked at a time at most 2 ^ 15
-- seconds before its end, or less than 2 ^ 15 seconds after it, has run out exactly if its end is
-- reached: the 16-bit numbers may wrap round in between.
pub check_timeout_sec-set_timeout_sec :
    (start delay now : ℕ)
    → start + delay ≤ now + 2 ^ 15
    → now < start + delay + 2 ^ 15
    → (check_timeout_sec now (set_timeout_sec start delay) ≡ true) ↔ (start + delay ≤ now)
check_timeout_sec-set_timeout_sec start delay now lo hi = (forth, back)
  where
    timer : ℕ
    timer = set_timeout_sec start delay

    forth : check_timeout_sec now timer ≡ true → start + delay ≤ now
    forth h =
        let early : u16 (u16 now + 2 ^ 16 - timer) < 2 ^ 15 = ground (arith, h) in
        omega (arith, early)

    back : start + delay ≤ now → check_timeout_sec now timer ≡ true
    back le =
        let early : u16 (u16 now + 2 ^ 16 - timer) < 2 ^ 15 = omega arith in ground (arith, early)

due_late :
    (now start : ℕ) (r : Request)
    → r.frame_id ≢ 0
    → r.in_use ≡ true
    → start + (if has_flag r flag_remote then 180 else 2) ≤ now
    → now < start + (if has_flag r flag_remote then 180 else 2) + 2 ^ 15
    → due now (after_send start r) ≡ true
unfolding after_send
due_late now start r ne used lo hi =
    let delay : ℕ = if has_flag r flag_remote then 180 else 2 in
    let test : (r.frame_id == 0) ≡ false = ground (arith, ne) in
    let same : u16 (start + delay) ≡ set_timeout_sec start delay = omega arith in
    let over =
      (check_timeout_sec-set_timeout_sec start delay now (omega (arith, lo)) (omega (arith, hi))).1
        lo in
    rw (test, used, same) over

-- A table of two whose entries come from such a table by `survivor` is one.
with_sequences :
    (now : ℕ) (t t' : Table)
    → IsTable t
    → length t' ≡ tablesize
    → ((j : ℕ) → j < tablesize → get_request t' j ≡ survivor now (get_request t j))
    → IsTable t'
with_sequences now t t' v size each = record { size = size; sequences = low }
  where
    byte : (r : Request) → r.sequence < 2 ^ 8 → (survivor now r).sequence < 2 ^ 8
    byte r lt = elim (Bool-cases (due now r)) [
      | inl late ↦ rw late (omega arith)
      | inr early ↦ rw early lt
    ]

    low : (j : ℕ) → (get_request t' j).sequence < 2 ^ 8
    low j = elim (Bool-cases (ltb j tablesize)) [
      | inl inside ↦
          subst (λ r. r.sequence < 2 ^ 8) (sym (each j (ground (arith, inside))))
            (byte (get_request t j) (v.sequences j))
      | inr outside ↦
          subst (λ r. r.sequence < 2 ^ 8)
            (sym (get_or-past t' j (cleared 0) (ground (arith, outside, size)))) (omega arith)
    ]

module _ {W : Type 0} (seconds : W → ℕ) (call : Callbacks W) (query : State W → State W) where
  -- With callbacks that leave the table and the refresh flag alone, take no time, and give up a
  -- request that timed out, and with no refresh waiting, `xbee_cmd_tick` on a table of the right
  -- size with byte sequence numbers does nothing when the low 8 bits of the seconds are those of
  -- the last tick that was made: in the same second, and 256 seconds later too. With other low
  -- bits it releases exactly the requests that are in use and have run out, returns their number,
  -- and leaves such a table; no null pointer is read.
  pub cmd_tick_lem :
      (s : State W)
      → IsSteady seconds call
      → IsTable s.table
      → s.dev.flags.query_refresh ≡ false
      → (s.last_time ≡ u8 (seconds s.world) → cmd_tick seconds call query s ≡ some (0, s))
        × (s.last_time ≢ u8 (seconds s.world)
            → (s' : State W) × (cmd_tick seconds call query s
                ≡ some (count_due (seconds s.world) tablesize s.table, s'))
              × ((j : ℕ)
                  → j < tablesize
                  → get_request s'.table j ≡ survivor (seconds s.world) (get_request s.table j))
              × IsTable s'.table)
  unfolding cmd_tick
  cmd_tick_lem s steady v calm = (seen, fresh)
    where
      seen : s.last_time ≡ u8 (seconds s.world) → cmd_tick seconds call query s ≡ some (0, s)
      seen e =
          let test : (s.last_time == u8 (seconds s.world)) ≡ true = ground (arith, e) in
          rw test refl

      fresh :
          s.last_time ≢ u8 (seconds s.world)
          → (s' : State W) × (cmd_tick seconds call query s
              ≡ some (count_due (seconds s.world) tablesize s.table, s'))
            × ((j : ℕ)
                → j < tablesize
                → get_request s'.table j ≡ survivor (seconds s.world) (get_request s.table j))
            × IsTable s'.table
      fresh ne =
          let now = seconds s.world in
          let test : (s.last_time == u8 now) ≡ false = ground (arith, ne) in
          let swept =
            expire-IsSwept seconds call steady query tablesize 0 (record s { last_time = u8 now })
              (omega arith) v.size calm in
          let each : (j : ℕ)
              → j < tablesize
              → get_request swept.after.table j ≡ survivor now (get_request s.table j) =
            λ j lt. swept.rest j (omega arith) lt in
          rw test (
            swept.after,
            swept.went ∙ ap (λ m. some (m, swept.after)) (omega arith),
            each,
            with_sequences now s.table swept.after.table v swept.size each,
          )

  -- A request that was sent at `start` and waits for its response, 2 seconds or, if it is remote,
  -- 180, does not wait for ever: with such callbacks, no refresh waiting and such a table, any tick
  -- at which the low 8 bits of the seconds are not those of the last tick that was made, once the
  -- time is over and for 2 ^ 15 seconds from there, frees its entry and makes its handle invalid.
  pub cmd_tick-ends :
      (s : State W) (i start : ℕ) (r : Request)
      → IsSteady seconds call
      → IsTable s.table
      → s.dev.flags.query_refresh ≡ false
      → s.last_time ≢ u8 (seconds s.world)
      → i < tablesize
      → r.frame_id ≢ 0
      → r.in_use ≡ true
      → get_request s.table i ≡ after_send start r
      → let over = start + (if has_flag r flag_remote then 180 else 2) in
        over ≤ seconds s.world
        → seconds s.world < over + 2 ^ 15
        → (count : ℕ) × (s' : State W) × (cmd_tick seconds call query s ≡ some (count, s'))
          × ((get_request s'.table i).in_use ≡ false)
          × (handle_to_address s'.table (ret (i * 2 ^ 8 + (get_request s.table i).sequence)) ≡ none)
  cmd_tick-ends s i start r steady v calm ne lt numbered used e lo hi =
      let now = seconds s.world in
      let entry = get_request s.table i in
      let (s', went, each, v') = (cmd_tick_lem s steady v calm).1 ne in
      let late : due now entry ≡ true =
        subst (λ q. due now q ≡ true) (sym e) (due_late now start r numbered used lo hi) in
      let gone : get_request s'.table i ≡ released entry = each i lt ∙ rw late refl in
      let moved : (get_request s'.table i).sequence ≢ (i * 2 ^ 8 + entry.sequence) % 2 ^ 8 =
        λ same. absurd (omega (arith, same, ap (λ q. q.sequence) gone, v.sequences i)) in
      let index : (i * 2 ^ 8 + entry.sequence) / 2 ^ 8 ≡ i = omega (arith, v.sequences i) in
      (
        count_due now tablesize s.table,
        s',
        went,
        ap (λ q. q.in_use) gone,
        stale s'.table (i * 2 ^ 8 + entry.sequence) (
            subst (λ j. (get_request s'.table j).sequence ≢ (i * 2 ^ 8 + entry.sequence) % 2 ^ 8)
              (sym index) moved),
      )

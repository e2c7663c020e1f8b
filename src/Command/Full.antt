-- ===== src/Command/Full.antt =====
-- The query of the device when the table of requests is full.
use xbeepocs.Base.{
  Bool-cases, List, [], ap, ebusy, enospc, fail, false, get_or, if◌then◌else◌, inl, inr, none, refl,
  ret, some, u8, ℕ, ◌++◌, ◌<◌, ◌==◌, ◌∙◌, ◌∷◌, ◌≡◌,
}
use xbeepocs.Serial.{Os}
use xbeepocs.Command.{create, find_free, tablesize, get_request}
use xbeepocs.Command.Responses.{Callbacks, set_timeout_sec}
use xbeepocs.Command.Lists.{Memory, reg_end}
use xbeepocs.Command.Lists.Run.{
  Machine, with_head, list_status, cmd_create, issue_request, issue_list, list_execute,
}
use xbeepocs.Command.Tick.{due, cmd_tick}
use xbeepocs.Command.Expiry.{expire-none_due}
use xbeepocs.Command.Query.{query_regs, query_end, query_began, query_device}

module _ (sys : Os) (seconds : sys.World → ℕ) where
  cmd_create_full :
      (tick : Machine sys → Machine sys) (command : List ℕ) (s : Machine sys)
      → find_free s.table 0 ≡ none
      → find_free (tick s).table 0 ≡ none
      → cmd_create sys seconds tick command s ≡ (fail enospc, tick s)
  cmd_create_full tick command s none_free still =
      let refused : create (tick s).table (set_timeout_sec (seconds (tick s).world.world) 2) command
          ≡ (fail enospc, (tick s).table) =
        unfold create in rw (create, still) refl in
      unfold cmd_create in rw (none_free, refused) refl

  -- A full table that the tick leaves full.
  query_device-refused :
      (tick : Machine sys → Machine sys) (s : Machine sys)
      → s.dev.flags.query_inprogress ≡ false
      → find_free s.table 0 ≡ none
      → let s0 =
          with_head
            (λ clc. record {
              list = query_regs ++ (query_end ∷ []);
              status = fail ebusy;
              index = 0;
            })
            s in
        find_free (tick s0).table 0 ≡ none
        → (tick s0).world.head ≡ s0.world.head
        → (tick s0).dev ≡ s0.dev
        → query_device sys seconds tick false s ≡ (fail enospc, tick s0)
  query_device-refused tick s idle none_free still head dev =
      let list = query_regs ++ (query_end ∷ []) in
      let s0 = with_head (λ clc. record { list = list; status = fail ebusy; index = 0 }) s in
      let full = cmd_create_full tick (get_or list 0 reg_end).command s0 none_free still in
      let issued : issue_list sys seconds tick none s0 ≡ (fail enospc, tick s0) =
        unfold issue_list issue_request in
        rw (issue_list, issue_request, full) (ap (λ p. (fail enospc, p.1)) full) in
      let ran : list_execute sys seconds tick list none s ≡ (fail enospc, tick s0) =
        unfold list_execute in rw (list_execute, issued) (ap (λ p. (fail enospc, p.1)) issued) in
      unfold query_device query_began in
      ap
        (λ b.
          if b
          then (ret 0, s)
          else query_began sys seconds (list_execute sys seconds tick list none s))
        idle
      ∙ ap (query_began sys seconds) ran

  -- The call of `xbee_cmd_tick` that `xbee_cmd_create` makes; a tick that reads a null pointer
  -- leaves the machine.
  abbrev pub tick_of :
      Callbacks (Memory sys.World) → (Machine sys → Machine sys) → Machine sys → Machine sys
  tick_of call query s = elim (cmd_tick (λ m. seconds m.world) call query s) [
    | none ↦ s
    | some r ↦ r.1
  ]

  -- A tick of a table in which no request has run out changes nothing but the time of the tick.
  record IsQuiet (s s' : Machine sys) : Type 0 where
    table : s'.table ≡ s.table
    world : s'.world ≡ s.world
    dev : s'.dev ≡ s.dev

  tick_of-IsQuiet :
      (call : Callbacks (Memory sys.World)) (query : Machine sys → Machine sys) (s : Machine sys)
      → ((j : ℕ) → j < tablesize → due (seconds s.world.world) (get_request s.table j) ≡ false)
      → IsQuiet s (tick_of call query s)
  unfolding cmd_tick
  tick_of-IsQuiet call query s early =
      elim (Bool-cases (s.last_time == u8 (seconds s.world.world))) [
        | inl seen ↦
            rw (seen, tick_of, cmd_tick) (record { table = refl; world = refl; dev = refl })
        | inr fresh ↦
            let none_due =
              expire-none_due (λ m. seconds m.world) call query tablesize 0
                (record s { last_time = u8 (seconds s.world.world) }) (λ j lo hi. early j hi) in
            rw (fresh, none_due, tick_of, cmd_tick)
              (record { table = refl; world = refl; dev = refl })
      ]

  -- When the table of requests is full, and none of its requests has run out, so that the tick
  -- that `xbee_cmd_create` makes frees none, `xbee_cmd_query_device` on a device without a query in
  -- progress is -ENOSPC, and no query is in progress, but the status of the query says -EBUSY. The
  -- table stays.
  pub query_device-full :
      (call : Callbacks (Memory sys.World)) (query : Machine sys → Machine sys) (s : Machine sys)
      → s.dev.flags.query_inprogress ≡ false
      → find_free s.table 0 ≡ none
      → ((j : ℕ) → j < tablesize → due (seconds s.world.world) (get_request s.table j) ≡ false)
      → let (result, s') = query_device sys seconds (tick_of call query) false s in
        (result ≡ fail enospc)
        × (list_status sys seconds s' ≡ fail ebusy)
        × (s'.dev.flags.query_inprogress ≡ false)
        × (s'.table ≡ s.table)
  query_device-full call query s idle none_free early =
      let list = query_regs ++ (query_end ∷ []) in
      let s0 = with_head (λ clc. record { list = list; status = fail ebusy; index = 0 }) s in
      let quiet = tick_of-IsQuiet call query s0 early in
      let head = ap (λ m. m.head) (quiet.world) in
      let went =
        query_device-refused (tick_of call query) s idle none_free
          (ap (λ t. find_free t 0) (quiet.table) ∙ none_free) head (quiet.dev) in
      (
        ap (λ p. p.0) went,
        ap (λ p. list_status sys seconds p.1) went ∙ ap (λ clc. clc.status) head,
        ap (λ p. p.1.dev.flags.query_inprogress) went
            ∙ ap (λ d. d.flags.query_inprogress) (quiet.dev)
            ∙ idle,
        ap (λ p. p.1.table) went ∙ quiet.table,
      )

-- ===== src/Command/Lists/Run.antt =====
-- xbee_atcmd.c: running a list of commands, the functions `_xbee_cmd_issue_list`,
-- `_xbee_cmd_list_callback` and `xbee_cmd_list_execute`.
use xbeepocs.Base.{
  Bool, List, Option, Ret, bit_and, ebusy, eio, etimedout, fail, false, get_or, if◌then◌else◌, none,
  not, ret, some, true, u16, ℕ, ◌+◌, ◌==◌,
}
use xbeepocs.Serial.{Os}
use xbeepocs.Command.{
  Table, create, find_free, release_handle, set_command, set_callback, set_target,
}
use xbeepocs.Command.Sending.{cmd_send}
use xbeepocs.Command.Responses.{Response, State, command_w, set_timeout_sec}
use xbeepocs.Command.Lists.{
  Reg, Clc, Memory, reg_end, reg_valid, current, set_reg_param, store_response, final_reg, is_last,
  list_callback_fn,
}

abbrev pub Machine : Os → Type 0
Machine sys = State (Memory sys.World)

abbrev pub with_head : {World : Type 0} → (Clc → Clc) → State (Memory World) → State (Memory World)
with_head change s = record s { world = record (s.world) { head = change s.world.head } }

module _ (sys : Os) (seconds : sys.World → ℕ) where
  abbrev now : Machine sys → ℕ
  now s = seconds s.world.world

  -- `xbee_cmd_create` on a device that is initialized; `tick` is the call of `xbee_cmd_tick` that
  -- is to free an entry when there is none.
  unfoldable pub cmd_create : (Machine sys → Machine sys) → List ℕ → Machine sys → Ret × Machine sys
  cmd_create tick command s =
      let ready : Machine sys = elim (find_free s.table 0) [ none ↦ tick s | some i ↦ s ] in
      let (handle, t) = create ready.table (set_timeout_sec (now ready) 2) command in
      (handle, record ready { table = t })

  -- The request of a response is used again; else there is a new one.
  unfoldable pub issue_request :
      (Machine sys → Machine sys) → Option Response → Machine sys → Ret × Machine sys
  issue_request tick (some response) s = (ret response.handle, s)
  issue_request tick none s = cmd_create tick (get_or s.world.head.list 0 reg_end).command s

  -- The current command of the list, put into a request.
  unfoldable pub fill_request : Ret → Machine sys → Machine sys
  unfolding set_command set_reg_param
  fill_request request s =
      let reg = current s.world.head in
      let t = (set_command s.table request reg.command).1 in
      record s { table = set_reg_param reg request s.dev t }

  unfoldable pub issue_list :
      (Machine sys → Machine sys) → Option Response → Machine sys → Ret × Machine sys
  issue_list tick response s =
      let (request, s1) = issue_request tick response s in
      elim request [
        | fail e ↦ (fail e, s1)
        | ret handle ↦ (ret handle, fill_request (ret handle) s1)
      ]

  unfoldable pub send : Ret → Machine sys → Ret × Machine sys
  unfolding cmd_send
  send request s =
      let (error, t, d, w) = cmd_send sys seconds s.table request s.dev s.world.world in
      (error, record s { table = t; dev = d; world = record (s.world) { world = w } })

  -- The callbacks of entries: a null entry is `none`.
  module _ (on_reg : ℕ → Response → Option Reg → Machine sys → Machine sys) where
    unfoldable pub call_reg : Option ℕ → Response → Option Reg → Machine sys → Machine sys
    call_reg none response reg s = s
    call_reg (some callback) response reg s = on_reg callback response reg s

    -- The list is over: its status, and the callback at its end.
    unfoldable pub finish : Ret → Option ℕ → Response → Option Reg → Machine sys → Machine sys
    unfolding call_reg
    finish status callback response reg s =
        call_reg callback response reg (with_head (λ clc. record clc { status = status }) s)

    -- A response that came in time and was for the current command: stored, then handed on.
    unfoldable pub take_response : Response → Machine sys → Machine sys
    take_response response s =
        let reg = current s.world.head in
        call_reg reg.callback response (some reg) (
          if bit_and response.flags 0x000F == 0
          then record s { dev = store_response reg response s.dev }
          else s)

    -- On to the next entry: its command is sent with the same request, or the list is done.
    unfoldable pub next_entry : Response → Machine sys → Bool × Machine sys
    next_entry response before =
        let s = with_head (λ clc. record clc { index = u16 (clc.index + 1) }) before in
        let reg = current s.world.head in
        if not (reg_valid reg)
        then (false, finish (ret 0) reg.callback response (some reg) s)
        else let s1 = (send (ret response.handle) (fill_request (ret response.handle) s)).1 in
          if is_last reg.type
          then (
            false,
            finish (ret 0) reg.callback response (some reg)
                (record s1 { table = (release_handle s1.table (ret response.handle)).1 }),
          )
          else (true, s1)

    -- `_xbee_cmd_list_callback`: XBEE_ATCMD_REUSE is `true`.
    unfoldable pub list_callback : Response → Machine sys → Bool × Machine sys
    list_callback response s =
        let clc = s.world.head in
        let reg = current clc in
        let end_of_list = final_reg clc.list in
        if not (bit_and response.flags 0x8000 == 0)
        then (false, finish (fail etimedout) end_of_list.callback response (some end_of_list) s)
        else if not (command_w response.command == command_w reg.command)
        then (false, finish (fail eio) reg.callback response none s)
        else next_entry response (take_response response s)

  -- `xbee_cmd_list_execute`; a null address is `none`.
  unfoldable pub list_execute :
      (Machine sys → Machine sys) → List Reg → Option (List ℕ × ℕ) → Machine sys → Ret × Machine sys
  list_execute tick list address s =
      let s0 = with_head (λ clc. record { list = list; status = fail ebusy; index = 0 }) s in
      let (request, s1) = issue_list tick none s0 in
      elim request [
        | fail e ↦ (fail e, s1)
        | ret handle ↦
            let t1 : Table = elim address [
              | none ↦ s1.table
              | some (ieee, net) ↦ (set_target s1.table (ret handle) (some ieee) net).1
            ] in
            let (error, t2) = set_callback t1 (ret handle) (some list_callback_fn) 0 in
            elim error [
              | fail e ↦ (fail e, record s1 { table = t2 })
              | ret n ↦ send (ret handle) (record s1 { table = t2 })
            ]
      ]

  -- `xbee_cmd_list_status`
  abbrev pub list_status : Machine sys → Ret
  list_status s = s.world.head.status

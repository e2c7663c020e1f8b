-- ===== src/Command/Query.antt =====
-- xbee_atcmd.c: the query of the device by a list of commands, and when it is made.
use xbeepocs.Base.{
  Bool, List, Option, Ret, [], bit_and, einval, fail, false, get_or, if◌then◌else◌, none, not, ret,
  some, suc, true, zero, ℕ, ◌&&◌, ◌++◌, ◌==◌, ◌||◌, ◌∷◌,
}
use xbeepocs.Serial.{Os}
use xbeepocs.Device.State.{Dev, Flags}
use xbeepocs.Command.Responses.{Response}
use xbeepocs.Command.Lists.{
  Reg, RegType, clt_copy_be, clt_copy_pad_left, Field, hardware_version, hardware_series,
  firmware_version, ieee_high, ieee_low, payload, network, reg_end,
}
use xbeepocs.Command.Lists.Run.{Machine, list_execute, list_status}

-- `_xbee_cmd_query_handle_eo`
unfoldable pub query_handle_eo : Response → Dev → Dev
query_handle_eo response d =
    if bit_and response.flags 0x000F == 0
    then record d {
      wpan = record (d.wpan) { authentication_enabled = not (bit_and response.value 0x0008 == 0) };
    }
    else d

-- `_xbee_cmd_query_handle_ai`
unfoldable pub query_handle_ai : Response → Dev → Dev
query_handle_ai response d =
    if (bit_and response.flags 0x000F == 0) && (response.value == 0)
    then record d {
      wpan = record (d.wpan) {
        joined = true;
        authenticated = if d.wpan.authentication_enabled then true else d.wpan.authenticated;
      };
    }
    else d

abbrev pub fn_eo : ℕ
fn_eo = 1

abbrev pub fn_ai : ℕ
fn_ai = 2

abbrev pub fn_end : ℕ
fn_end = 3

-- XBEE_ATCMD_REG and XBEE_ATCMD_REG_CB
abbrev pub atcmd_reg : ℕ → ℕ → RegType → ℕ → Field → Reg
atcmd_reg c1 c2 type bytes field = record {
  command = c1 ∷ c2 ∷ [];
  flags = 0;
  type = type;
  callback = none;
  bytes = bytes;
  offset = field;
}

abbrev pub atcmd_reg_cb : ℕ → ℕ → ℕ → Reg
atcmd_reg_cb c1 c2 callback = record reg_end { command = c1 ∷ c2 ∷ []; callback = some callback }

-- The registers that change with the network.
abbrev pub refresh_regs : List Reg
refresh_regs = atcmd_reg 78 80 clt_copy_be 2 payload ∷ atcmd_reg 77 89 clt_copy_be 2 network ∷ []

-- `_xbee_atcmd_query_regs`, HV HS VR SH SL EO AI NP MY, before the entry that ends it
abbrev pub query_regs : List Reg
query_regs =
    atcmd_reg 72 86 clt_copy_be 2 hardware_version
    ∷ atcmd_reg 72 83 clt_copy_be 2 hardware_series
    ∷ atcmd_reg 86 82 clt_copy_be 4 firmware_version
    ∷ atcmd_reg 83 72 clt_copy_pad_left 4 ieee_high
    ∷ atcmd_reg 83 76 clt_copy_pad_left 4 ieee_low
    ∷ atcmd_reg_cb 69 79 fn_eo
    ∷ atcmd_reg_cb 65 73 fn_ai
    ∷ refresh_regs

-- XBEE_ATCMD_REG_END_CB
abbrev pub query_end : Reg
query_end = record reg_end { callback = some fn_end }

abbrev pub with_flags : (Flags → Flags) → Dev → Dev
with_flags change d = record d { flags = change d.flags }

-- The flags when a query ends: whether by an error, and whether it is to be made again.
unfoldable pub query_ended : Response → Option Reg → Dev → Dev
query_ended response reg d =
    let error : Bool = elim reg [
      | none ↦ true
      | some r ↦ not (bit_and response.flags 0x8000 == 0)
    ] in
    let failed = if error then true else d.flags.query_error in
    record d {
      flags = record (d.flags) {
        query_inprogress = false;
        query_error = failed;
        query_done = if error then d.flags.query_done else true;
        query_refresh =
            if failed && (d.wpan.joined && (d.wpan.network == 0xFFFE))
            then true
            else d.flags.query_refresh;
      };
    }

module _ (sys : Os) (seconds : sys.World → ℕ) where
  -- `_xbee_cmd_query_handle_end`; `again` is the call of `xbee_cmd_query_device` to refresh.
  unfoldable pub query_handle_end :
      (Machine sys → Machine sys) → Response → Option Reg → Machine sys → Machine sys
  query_handle_end again response reg s =
      let s' : Machine sys = record s { dev = query_ended response reg s.dev } in
      if s'.dev.flags.query_refresh then again s' else s'

  -- The callbacks of the list's entries.
  unfoldable pub on_query_reg :
      (Machine sys → Machine sys) → ℕ → Response → Option Reg → Machine sys → Machine sys
  unfolding query_handle_eo query_handle_ai query_handle_end
  on_query_reg again c response reg s =
      if c == fn_eo
      then record s { dev = query_handle_eo response s.dev }
      else if c == fn_ai
      then record s { dev = query_handle_ai response s.dev }
      else query_handle_end again response reg s

  -- The flags once a query was started.
  abbrev pub query_started : Flags → Flags
  query_started f = record f {
    query_begin = true;
    query_inprogress = true;
    query_error = false;
    query_done = false;
    query_refresh = false;
  }

  -- What the result of the list's start makes of the flags.
  unfoldable pub query_began : Ret × Machine sys → Ret × Machine sys
  query_began (ret zero, s) = (ret 0, record s { dev = with_flags query_started s.dev })
  query_began (ret (suc n), s) = (ret (suc n), s)
  query_began (fail e, s) = (fail e, s)

  -- `xbee_cmd_query_device`
  unfoldable pub query_device : (Machine sys → Machine sys) → Bool → Machine sys → Ret × Machine sys
  query_device tick refresh s =
      let asked : Machine sys =
        if refresh
        then record s { dev = with_flags (λ f. record f { query_refresh = true }) s.dev }
        else s in
      let list : List Reg = (if refresh then refresh_regs else query_regs) ++ (query_end ∷ []) in
      if asked.dev.flags.query_inprogress
      then (ret 0, asked)
      else query_began (list_execute sys seconds tick list none asked)

  -- `xbee_cmd_init_device`
  unfoldable pub init_device : (Machine sys → Machine sys) → Machine sys → Ret × Machine sys
  unfolding query_device
  init_device tick s =
      if s.dev.flags.cmd_init
      then (ret 0, s)
      else let s' : Machine sys = record s {
        dev = with_flags (λ f. record f { cmd_init = true }) s.dev;
      } in
        if s'.dev.flags.query_begin then (ret 0, s') else query_device tick false s'

  -- `xbee_cmd_query_status`
  unfoldable pub query_status : (Machine sys → Machine sys) → Machine sys → Ret × Machine sys
  query_status tick s = let s' = tick s in (list_status sys seconds s', s')

  -- `_xbee_cmd_modem_status`; a null frame is `none`.
  unfoldable pub cmd_modem_status :
      (Machine sys → Machine sys) → Option (List ℕ) → Machine sys → Ret × Machine sys
  unfolding query_device
  cmd_modem_status tick none s = (fail einval, s)
  cmd_modem_status tick (some frame) s =
      let status = get_or frame 1 0 in
      if status == 0x10 || status == 0x02 || status == 0x06
      then (ret 0, (query_device tick true s).1)
      else (ret 0, s)

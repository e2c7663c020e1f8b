-- ===== src/Command/Lists.antt =====
-- xbee_atcmd.c: lists of AT commands that are sent one after the other, each when the response to
-- the one before it has come, into or from the fields of the device.
pub mod Run
pub mod Effects
pub mod Turns
pub mod Complete
use xbeepocs.Base.{
  Bool, List, Option, Ret, [], drop, false, get_or, if◌then◌else◌, min, none, not, replicate, some,
  splice, suc, take, true, u8, zero, ℕ, ◌*◌, ◌+◌, ◌-◌, ◌/◌, ◌==◌, ◌^◌, ◌||◌, ◌∷◌,
}
use xbeepocs.Serial.{Os}
use xbeepocs.Device.State.{Dev}
use xbeepocs.Command.{
  Table, get_request, create, find_free, release_handle, set_command, set_callback, set_target,
  set_param, set_param_bytes, set_param_str,
}
use xbeepocs.Command.Sending.{cmd_send}
use xbeepocs.Command.Responses.{Response, State, command_w, set_timeout_sec}

-- `enum xbee_command_list_type`
pub data RegType : Type 0 where
  clt_none clt_copy clt_copy_pad_left clt_copy_be clt_set clt_set_str clt_set_be clt_set_8
        clt_last :
      RegType

-- The fields of the device that an entry can name, each in place of its offset.
pub data Field : Type 0 where
  no_field hardware_version hardware_series firmware_version ieee_high ieee_low payload network :
      Field

-- `xbee_atcmd_reg_t`; a callback is named by a number.
pub record Reg : Type 0 where
  pub command : List ℕ
  pub flags : ℕ
  pub type : RegType
  pub callback : Option ℕ
  pub bytes : ℕ
  pub offset : Field

-- `xbee_command_list_context_t`; the base is the device.
pub record Clc : Type 0 where
  pub list : List Reg
  pub status : Ret
  pub index : ℕ

-- XBEE_ATCMD_REG_END: the entry that ends a list.
abbrev pub reg_end : Reg
reg_end = record {
  command = 0 ∷ 0 ∷ [];
  flags = 0;
  type = clt_none;
  callback = none;
  bytes = 0;
  offset = no_field;
}

abbrev pub reg_valid : Reg → Bool
reg_valid reg = not (command_w reg.command == 0)

-- The entry that a context stands at.
abbrev pub current : Clc → Reg
current clc = get_or clc.list clc.index reg_end

-- The memory of a program with one list, its head and the world of the port.
pub record Memory (World : Type 0) : Type 0 where
  pub head : Clc
  pub world : World

-- A number in the host's byte order, the lowest first.
abbrev pub le_bytes : ℕ → ℕ → List ℕ
le_bytes zero value = []
le_bytes (suc n) value = u8 value ∷ le_bytes n (value / 2 ^ 8)

abbrev pub le_value : List ℕ → ℕ
le_value [] = 0
le_value (b ∷ bytes) = b + le_value bytes * 2 ^ 8

-- The memory of a field, written and read.
unfoldable pub poke : Field → List ℕ → Dev → Dev
poke no_field bytes d = d
poke hardware_version bytes d = record d { hardware_version = le_value bytes }
poke hardware_series bytes d = record d { hardware_series = le_value bytes }
poke firmware_version bytes d = record d { firmware_version = le_value bytes }
poke ieee_high bytes d = record d {
  wpan = record (d.wpan) { ieee = splice d.wpan.ieee 0 (take 4 bytes) };
}
poke ieee_low bytes d = record d {
  wpan = record (d.wpan) { ieee = splice d.wpan.ieee 4 (take 4 bytes) };
}
poke payload bytes d = record d { wpan = record (d.wpan) { payload = le_value bytes } }
poke network bytes d = record d { wpan = record (d.wpan) { network = le_value bytes } }

unfoldable pub peek : Field → ℕ → Dev → List ℕ
peek no_field n d = replicate n 0
peek hardware_version n d = le_bytes n d.hardware_version
peek hardware_series n d = le_bytes n d.hardware_series
peek firmware_version n d = le_bytes n d.firmware_version
peek ieee_high n d = take n d.wpan.ieee
peek ieee_low n d = take n (drop 4 d.wpan.ieee)
peek payload n d = le_bytes n d.wpan.payload
peek network n d = le_bytes n d.wpan.network

-- The bytes before the first NUL.
abbrev pub c_string : List ℕ → List ℕ
c_string [] = []
c_string (b ∷ bytes) = if b == 0 then [] else b ∷ c_string bytes

-- The parameter of an entry, stored in the request.
unfoldable pub set_reg_param : Reg → Ret → Dev → Table → Table
unfolding set_param set_param_bytes set_param_str peek
set_reg_param reg request d t = elim reg.type [
  | clt_set_8 ↦ (set_param t request reg.bytes).1
  | clt_set ↦ (set_param_bytes t request (peek reg.offset reg.bytes d)).1
  | clt_set_str ↦ (set_param_str t request (c_string (peek reg.offset reg.bytes d))).1
  | clt_set_be ↦
      let size = if reg.bytes == 2 then 2 else if reg.bytes == 4 then 4 else 1 in
      (set_param t request (le_value (peek reg.offset size d))).1
  | _ ↦ (set_param_bytes t request []).1
]

-- What the copy of a response stores in a field: the bytes padded with zeros, or the value in the
-- host's byte order.
unfoldable pub stored_bytes : Reg → Response → Option (List ℕ)
stored_bytes reg response =
    let count = min response.value_length reg.bytes in
    let zeros = replicate reg.bytes 0 in
    elim reg.type [
      | clt_copy ↦ some (splice zeros 0 (take count response.value_bytes))
      | clt_copy_pad_left ↦
          some (splice zeros (reg.bytes - count) (take count response.value_bytes))
      | clt_copy_be ↦
          if reg.bytes == 1 || reg.bytes == 2 || reg.bytes == 4
          then some (le_bytes reg.bytes response.value)
          else none
      | _ ↦ none
    ]

unfoldable pub store_response : Reg → Response → Dev → Dev
store_response reg response d = elim (stored_bytes reg response) [
  | none ↦ d
  | some bytes ↦ poke reg.offset bytes d
]

-- The entry that ends the list.
unfoldable pub final_reg : List Reg → Reg
final_reg [] = reg_end
final_reg (reg ∷ list) = if reg_valid reg then final_reg list else reg

-- `XBEE_CLT_LAST`
abbrev pub is_last : RegType → Bool
is_last clt_last = true
is_last _ = false

-- The number of the callback of lists.
abbrev pub list_callback_fn : ℕ
list_callback_fn = 0

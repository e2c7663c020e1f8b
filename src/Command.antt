-- ===== src/Command.antt =====
-- libraries/xbee_ansic_library/src/xbee/xbee_atcmd.c: AT commands and the table of requests.
-- A program has one device, so `in_use` takes the place of the pointer to it.
pub mod Encode
pub mod Simple
pub mod Handles
pub mod Params
pub mod Sending
pub mod Responses
pub mod Answers
pub mod Values
pub mod Tick
pub mod Expiry
pub mod Timeouts
pub mod Lists
pub mod Query
pub mod Learned
pub mod QueryEffects
pub mod Queried
pub mod Stopped
pub mod Full
mod Tests
mod ResponseTests
mod QueryTests
use xbeepocs.Base.{
  Bool, List, Option, Ret, [], bit_and, bit_or, einval, emsgsize, enospc, fail, false, get_or,
  if◌then◌else◌, leb, length, ltb, none, not, replicate, ret, set, some, splice, true, u32, u8, ℕ,
  ◌%◌, ◌*◌, ◌++◌, ◌+◌, ◌-◌, ◌/◌, ◌==◌, ◌^◌, ◌∷◌,
}
use xbeepocs.Serial.{Os}
use xbeepocs.Device.State.{Dev}
use xbeepocs.Device.{next_frame_id}
use xbeepocs.Device.Write.{frame_write}

-- `_xbee_cmd_encode_param`: the bytes stored, most significant first.
unfoldable pub encode_param : ℕ → List ℕ
encode_param value =
    let v = u32 value in
    if not (v / 2 ^ 16 == 0)
    then v / 2 ^ 24 ∷ v / 2 ^ 16 % 2 ^ 8 ∷ v / 2 ^ 8 % 2 ^ 8 ∷ v % 2 ^ 8 ∷ []
    else if not (v / 2 ^ 8 == 0)
    then v / 2 ^ 8 ∷ v % 2 ^ 8 ∷ []
    else v ∷ []

abbrev pub local_at_cmd : ℕ
local_at_cmd = 0x08

-- A local request: frame type, frame identifier, two letters.
abbrev pub local_header : ℕ → ℕ → List ℕ → List ℕ
local_header frame_type frame_id command = frame_type ∷ frame_id ∷ command

-- `xbee_cmd_request_t`; `param` has `max_param_length` bytes, a callback is named by a number.
pub record Request : Type 0 where
  pub sequence : ℕ
  pub in_use : Bool
  pub timeout : ℕ
  pub flags : ℕ
  pub param : List ℕ
  pub param_length : ℕ
  pub callback : Option ℕ
  pub context : ℕ
  pub frame_id : ℕ
  pub ieee : List ℕ
  pub network : ℕ
  pub command : List ℕ

-- XBEE_CMD_REQUEST_TABLESIZE
abbrev pub tablesize : ℕ
tablesize = 2

-- XBEE_CMD_MAX_PARAM_LENGTH, with cellular modules enabled
abbrev pub max_param_length : ℕ
max_param_length = 128

abbrev pub flag_remote : ℕ
flag_remote = 0x0001

abbrev pub flag_user_mask : ℕ
flag_user_mask = 0x0006

abbrev pub cleared : ℕ → Request
cleared sequence = record {
  sequence = sequence;
  in_use = false;
  timeout = 0;
  flags = 0;
  param = replicate max_param_length 0;
  param_length = 0;
  callback = none;
  context = 0;
  frame_id = 0;
  ieee = replicate 8 0;
  network = 0;
  command = 0 ∷ 0 ∷ [];
}

-- `xbee_cmd_request_table`
abbrev pub Table : Type 0
Table = List Request

abbrev pub get_request : Table → ℕ → Request
get_request t i = get_or t i (cleared 0)

-- `_xbee_cmd_handle_to_address`: the index of the entry; a negative handle is `fail`.
unfoldable pub handle_to_address : Table → Ret → Option ℕ
handle_to_address t (fail e) = none
handle_to_address t (ret handle) =
    if leb (tablesize * 2 ^ 8) handle
    then none
    else if (get_request t (handle / 2 ^ 8)).sequence == handle % 2 ^ 8
    then some (handle / 2 ^ 8)
    else none

-- What the setters have in common: an invalid handle is -EINVAL.
unfoldable pub with_request : Table → Ret → (Request → Request) → Ret × Table
with_request t handle change = elim (handle_to_address t handle) [
  | none ↦ (fail einval, t)
  | some i ↦ (ret 0, set t i (change (get_request t i)))
]

-- The search of `xbee_cmd_create` for an entry that is free.
unfoldable pub find_free : Table → ℕ → Option ℕ
find_free [] i = none
find_free (r ∷ t) i = if r.in_use then find_free t (i + 1) else some i

-- `xbee_cmd_create` from the search on, once a tick has tried to free an entry; `timeout` is two
-- seconds from now.
unfoldable pub create : Table → ℕ → List ℕ → Ret × Table
unfolding find_free
create t timeout command = elim (find_free t 0) [
  | none ↦ (fail enospc, t)
  | some i ↦ (
    ret (i * 2 ^ 8 + (get_request t i).sequence),
    set t i (record (cleared (get_request t i).sequence) {
      in_use = true;
      timeout = timeout;
      command = command;
    }),
  )
]

abbrev pub released : Request → Request
released r = record r { in_use = false; sequence = u8 (r.sequence + 1) }

unfoldable pub release_handle : Table → Ret → Ret × Table
unfolding with_request
release_handle t handle = with_request t handle released

unfoldable pub set_command : Table → Ret → List ℕ → Ret × Table
unfolding with_request
set_command t handle command = with_request t handle (λ r. record r { command = command })

unfoldable pub set_callback : Table → Ret → Option ℕ → ℕ → Ret × Table
unfolding with_request
set_callback t handle callback context =
    with_request t handle (λ r. record r { callback = callback; context = context })

-- No address turns back to the local device.
unfoldable pub set_target : Table → Ret → Option (List ℕ) → ℕ → Ret × Table
unfolding with_request
set_target t handle none network = with_request t handle (λ r. record r {
  ieee = replicate 8 0;
  network = 0;
  flags = bit_and r.flags (2 ^ 16 - 1 - flag_remote);
})
set_target t handle (some ieee) network =
    with_request t handle
      (λ r. record r { ieee = ieee; network = network; flags = bit_or r.flags flag_remote })

unfoldable pub set_flags : Table → Ret → ℕ → Ret × Table
unfolding with_request
set_flags t handle flags =
    with_request t handle (λ r. record r { flags = bit_or r.flags (bit_and flags flag_user_mask) })

unfoldable pub clear_flags : Table → Ret → ℕ → Ret × Table
unfolding with_request
clear_flags t handle flags =
    with_request t handle
      (λ r. record r { flags = bit_and r.flags (2 ^ 16 - 1 - bit_and flags flag_user_mask) })

abbrev pub with_param : List ℕ → Request → Request
with_param bytes r = record r { param = splice r.param 0 bytes; param_length = length bytes }

unfoldable pub set_param : Table → Ret → ℕ → Ret × Table
unfolding with_request encode_param
set_param t handle value = with_request t handle (with_param (encode_param value))

-- The length is checked before the handle.
unfoldable pub set_param_bytes : Table → Ret → List ℕ → Ret × Table
unfolding with_request
set_param_bytes t handle bytes =
    if ltb max_param_length (length bytes)
    then (fail emsgsize, t)
    else with_request t handle (with_param bytes)

unfoldable pub set_param_str : Table → Ret → List ℕ → Ret × Table
unfolding set_param_bytes
set_param_str t handle str =
    if ltb max_param_length (length str) then (fail emsgsize, t) else set_param_bytes t handle str

module _ (sys : Os) where
  open sys use {World}

  unfoldable pub cmd_simple : Dev → List ℕ → ℕ → World → Ret × World
  unfolding frame_write encode_param
  cmd_simple d command value w =
      frame_write sys d (some (local_header local_at_cmd 0 command ++ encode_param value)) none w

  -- A null pointer is `none`.
  unfoldable pub cmd_execute : Dev → List ℕ → Option (List ℕ) → World → Ret × Dev × World
  unfolding frame_write next_frame_id
  cmd_execute d command bytes w =
      let (id, d') = next_frame_id d in
      let (r, w') = frame_write sys d' (some (local_header local_at_cmd id command)) bytes w in
      (r, d', w')

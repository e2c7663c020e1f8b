-- ===== src/Command/Responses.antt =====
-- xbee_atcmd.c: responses to requests, and the requests that expire without one.
use xbeepocs.Base.{
  Bool, List, Option, Ret, [], einval, fail, false, get_or, if◌then◌else◌, length, ltb, none, not,
  ret, set, slice, some, true, u16, u8, ℕ, ◌&&◌, ◌*◌, ◌+◌, ◌-◌, ◌==◌, ◌^◌, ◌∷◌,
}
use xbeepocs.Device.State.{Dev}
use xbeepocs.Command.{Request, Table, flag_remote, get_request, released}
use xbeepocs.Command.Sending.{has_flag}

-- `xbee_cmd_response_t`; a null source is `none`.
pub record Response : Type 0 where
  pub source : Option (List ℕ × ℕ)
  pub handle : ℕ
  pub context : ℕ
  pub command : List ℕ
  pub flags : ℕ
  pub value_bytes : List ℕ
  pub value_length : ℕ
  pub value : ℕ

-- What the functions read and write: `xbee_cmd_request_table`, `last_time` of `xbee_cmd_tick`, the
-- device, and all else in `world`, the memory of the callbacks included.
pub record State (W : Type 0) : Type 0 where
  pub table : Table
  pub last_time : ℕ
  pub dev : Dev
  pub world : W

-- The functions named by numbers: each gets the response, and returns whether the handle is used
-- again (XBEE_ATCMD_REUSE).
abbrev pub Callbacks : Type 0 → Type 0
Callbacks W = ℕ → Response → State W → Bool × State W

abbrev pub local_at_response : ℕ
local_at_response = 0x88

abbrev pub remote_at_response : ℕ
remote_at_response = 0x97

-- The two letters as the number `command.w`.
abbrev pub command_w : List ℕ → ℕ
command_w command = get_or command 0 0 + get_or command 1 0 * 2 ^ 8

-- The fields of a response frame: the offset of the value, and what stands before it.
pub record Frame : Type 0 where
  pub is_local : Bool
  pub frame_id : ℕ
  pub source : Option (List ℕ × ℕ)
  pub command : List ℕ
  pub status : ℕ
  pub value_bytes : List ℕ
  pub value_length : ℕ

-- `raw` is the memory from the frame on, `length` the size of the frame; the size of the value is
-- an 8-bit number.
abbrev pub local_frame : List ℕ → ℕ → Frame
local_frame raw length = record {
  is_local = true;
  frame_id = get_or raw 1 0;
  source = none;
  command = slice raw 2 2;
  status = get_or raw 4 0;
  value_length = u8 (length + 2 ^ 8 - 5);
  value_bytes = slice raw 5 (u8 (length + 2 ^ 8 - 5));
}

abbrev pub remote_frame : List ℕ → ℕ → Frame
remote_frame raw length = record {
  is_local = false;
  frame_id = get_or raw 1 0;
  source = some (slice raw 2 8, get_or raw 10 0 * 2 ^ 8 + get_or raw 11 0);
  command = slice raw 12 2;
  status = get_or raw 14 0;
  value_length = u8 (length + 2 ^ 8 - 15);
  value_bytes = slice raw 15 (u8 (length + 2 ^ 8 - 15));
}

-- The frame by its type; another type is an error.
unfoldable pub parse_frame : List ℕ → ℕ → Option Frame
parse_frame raw length =
    if get_or raw 0 0 == local_at_response
    then some (local_frame raw length)
    else if get_or raw 0 0 == remote_at_response
    then some (remote_frame raw length)
    else none

-- Match device, frame identifier, local or remote, and command.
unfoldable pub matches_frame : Frame → Request → Bool
matches_frame f r =
    r.in_use
    && (r.frame_id == f.frame_id)
    && (if f.is_local then not (has_flag r flag_remote) else has_flag r flag_remote)
    && (command_w r.command == command_w f.command)

-- The search, from index `i` on, for the request that a frame answers.
unfoldable pub find_request : Frame → Table → ℕ → Option ℕ
unfolding matches_frame
find_request f [] i = none
find_request f (r ∷ t) i = if matches_frame f r then some i else find_request f t (i + 1)

-- The value as a number: big-endian in 1, 2 or 4 bytes.
unfoldable pub response_value : List ℕ → ℕ → ℕ
response_value bytes length =
    if length == 0
    then 0
    else if length == 1
    then get_or bytes 0 0
    else if length == 2
    then get_or bytes 0 0 * 2 ^ 8 + get_or bytes 1 0
    else if length == 4
    then get_or bytes 0 0 * 2 ^ 24
      + get_or bytes 1 0 * 2 ^ 16
      + get_or bytes 2 0 * 2 ^ 8
      + get_or bytes 3 0
    else 0xFFFFFFFF

-- What the callback of entry `i` gets.
unfoldable pub build_response : Frame → ℕ → Request → Response
unfolding response_value
build_response f i r = record {
  source = f.source;
  handle = i * 2 ^ 8 + r.sequence;
  context = r.context;
  command = r.command;
  flags = f.status;
  value_bytes = f.value_bytes;
  value_length = f.value_length;
  value = response_value f.value_bytes f.value_length;
}

-- Writing one entry of the table.
abbrev pub with_entry : {W : Type 0} → ℕ → (Request → Request) → State W → State W
with_entry i change s = record s { table = set s.table i (change (get_request s.table i)) }

-- XBEE_SET_TIMEOUT_SEC
abbrev pub set_timeout_sec : ℕ → ℕ → ℕ
set_timeout_sec now delay = u16 (u16 now + delay)

-- XBEE_CHECK_TIMEOUT_SEC: the 16-bit difference, read as a signed number, is not negative.
abbrev pub check_timeout_sec : ℕ → ℕ → Bool
check_timeout_sec now timer = ltb (u16 (u16 now + 2 ^ 16 - timer)) (2 ^ 15)

-- The callback of a request, if there is one: whether the handle is used again.
unfoldable pub call_back :
    {W : Type 0} → Callbacks W → Option ℕ → Response → State W → Bool × State W
call_back call none r s = (false, s)
call_back call (some callback) r s = call callback r s

module _ {W : Type 0} (seconds : W → ℕ) (call : Callbacks W) where
  -- After the callback: the request is kept for 5 more seconds, or released.
  unfoldable pub after_callback : ℕ → Bool × State W → State W
  after_callback i (true, s) =
      with_entry i (λ r. record r { timeout = set_timeout_sec (seconds s.world) 5 }) s
  after_callback i (false, s) = with_entry i released s

  -- The part after entry `i` was found.
  unfoldable pub answer : Frame → ℕ → State W → State W
  unfolding after_callback call_back build_response
  answer f i s = after_callback i (
      call_back call (get_request s.table i).callback (build_response f i (get_request s.table i))
        s)

  -- `_xbee_cmd_handle_response`; a null frame is `none`.
  unfoldable pub handle_response : Option (List ℕ) → ℕ → State W → Ret × State W
  handle_response none length s = (fail einval, s)
  handle_response (some raw) length s = elim (parse_frame raw length) [
    | none ↦ (fail einval, s)
    | some f ↦ elim (find_request f s.table 0) [
      | none ↦ (ret 0, s)
      | some i ↦ (ret 0, answer f i s)
    ]
  ]

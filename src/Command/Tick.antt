-- ===== src/Command/Tick.antt =====
-- `xbee_cmd_tick` of xbee_atcmd.c: the requests that expire without a response.
use xbeepocs.Base.{
  Bool, Option, [], false, if◌then◌else◌, none, some, suc, true, u8, zero, ℕ, ◌&&◌, ◌*◌, ◌+◌, ◌-◌,
  ◌==◌, ◌^◌,
}
use xbeepocs.Command.{Request, tablesize, get_request, released}
use xbeepocs.Command.Responses.{
  Response, State, Callbacks, call_back, with_entry, check_timeout_sec,
}

-- The response of a request that expired: no value, no source, the status not valid.
unfoldable pub expired_response : ℕ → Request → Response
expired_response i r = record {
  source = none;
  handle = i * 2 ^ 8 + r.sequence;
  context = r.context;
  command = r.command;
  flags = 0x8000 + 0x000F;
  value_bytes = [];
  value_length = 0;
  value = 0;
}

unfoldable pub notify : {W : Type 0} → Callbacks W → ℕ → State W → Bool × State W
unfolding call_back expired_response
notify call i s =
    call_back call (get_request s.table i).callback (expired_response i (get_request s.table i)) s

-- Releasing entry `i`, and the refresh that was waiting for an entry, `query`. The release reads
-- the device from the entry, which is a null pointer when the callback has released it: that is
-- `none`.
unfoldable pub release_expired : {W : Type 0} → (State W → State W) → ℕ → State W → Option (State W)
release_expired query i s =
    if (get_request s.table i).in_use
    then some (
        if s.dev.flags.query_refresh
        then query (with_entry i released s)
        else with_entry i released s)
    else none

unfoldable pub after_expired :
    {W : Type 0} → (State W → State W) → ℕ → Bool × State W → Option (State W)
unfolding release_expired
after_expired query i (true, s) = some s
after_expired query i (false, s) = release_expired query i s

-- Whether a request is in use and its time has run out at `now`.
abbrev pub due : ℕ → Request → Bool
due now r = r.in_use && check_timeout_sec now r.timeout

-- `query` is `xbee_cmd_query_device`, called to refresh.
module _ {W : Type 0} (seconds : W → ℕ) (call : Callbacks W) (query : State W → State W) where
  -- The loop over the last `n` entries.
  unfoldable pub expire : ℕ → ℕ → State W → Option (ℕ × State W)
  expire zero count s = some (count, s)
  expire (suc n) count s =
      if due (seconds s.world) (get_request s.table (tablesize - suc n))
      then elim (after_expired query (tablesize - suc n) (notify call (tablesize - suc n) s)) [
        | none ↦ none
        | some s' ↦ expire n (count + 1) s'
      ]
      else expire n count s

  -- `xbee_cmd_tick`, at most once a second
  unfoldable pub cmd_tick : State W → Option (ℕ × State W)
  cmd_tick s =
      if s.last_time == u8 (seconds s.world)
      then some (0, s)
      else expire tablesize 0 (record s { last_time = u8 (seconds s.world) })

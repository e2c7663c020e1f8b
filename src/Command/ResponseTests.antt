-- ===== src/Command/ResponseTests.antt =====
-- Responses and timeouts, at a table whose first request waits for its response since second 10.
use xbeepocs.Base.{
  List, [], arith, false, none, refl, ret, some, suc, sym, true, u8, zero, ℕ, ◌<◌, ◌^◌, ◌∷◌, ◌≡◌,
  ◌≢◌,
}
use xbeepocs.Device.Tests.{dev}
use xbeepocs.Command.{Request, tablesize, cleared, get_request, handle_to_address}
use xbeepocs.Command.Handles.{IsTable}
use xbeepocs.Command.Sending.{after_send}
use xbeepocs.Command.Responses.{
  State, Callbacks, local_at_response, local_frame, matches_frame, response_value, build_response,
}
use xbeepocs.Command.Tick.{cmd_tick}
use xbeepocs.Command.Expiry.{IsSteady, count_due, survivor}
use xbeepocs.Command.Timeouts.{cmd_tick_lem, cmd_tick-ends}

-- The world is the time in seconds.
abbrev seconds : ℕ → ℕ
seconds w = w

-- A callback that is done with its request.
abbrev done_with : Callbacks ℕ
done_with c r s = (false, s)

abbrev refresh : State ℕ → State ℕ
refresh s = s

done_with-IsSteady : IsSteady seconds done_with
done_with-IsSteady = record {
  table = λ c r s. refl;
  time = λ c r s. refl;
  refresh = λ c r s. refl;
  gives_up = λ c r s e. refl;
}

abbrev waiting : Request
waiting = record (cleared 5) {
  in_use = true;
  frame_id = 1;
  callback = some 0;
  command = 72 ∷ 86 ∷ [];
}

abbrev sent : Request
sent = record waiting { timeout = 12 }

abbrev pending : State ℕ
pending = record { table = sent ∷ cleared 255 ∷ []; last_time = 11; dev = dev; world = 12 }

pending-IsTable : IsTable pending.table
pending-IsTable = record { size = refl; sequences = sequences }
  where
    sequences : (i : ℕ) → (get_request pending.table i).sequence < 2 ^ 8
    sequences zero = omega arith
    sequences (suc zero) = omega arith
    sequences (suc (suc i)) = omega arith

-- The response to it: HV is 0x1944.
abbrev reply : List ℕ
reply = local_at_response ∷ 1 ∷ 72 ∷ 86 ∷ 0 ∷ 25 ∷ 68 ∷ []

sent_at_10 : after_send 10 waiting ≡ sent
unfolding after_send
sent_at_10 = refl

value_of_reply :
    (build_response (local_frame reply 7) 0 (get_request pending.table 0)).value ≡ 0x1944
unfolding build_response response_value
value_of_reply = refl

cmd_tick_lem_example :
    (11 ≡ u8 12 → cmd_tick seconds done_with refresh pending ≡ some (0, pending))
    × (11 ≢ u8 12
        → (s' : State ℕ) × (cmd_tick seconds done_with refresh pending
            ≡ some (count_due 12 tablesize pending.table, s'))
          × ((j : ℕ)
              → j < tablesize
              → get_request s'.table j ≡ survivor 12 (get_request pending.table j))
          × IsTable s'.table)
cmd_tick_lem_example =
    cmd_tick_lem seconds done_with refresh pending done_with-IsSteady pending-IsTable refl

cmd_tick-ends_example :
    (count : ℕ) × (s' : State ℕ) × (cmd_tick seconds done_with refresh pending ≡ some (count, s'))
    × ((get_request s'.table 0).in_use ≡ false)
    × (handle_to_address s'.table (ret 5) ≡ none)
cmd_tick-ends_example =
    cmd_tick-ends seconds done_with refresh pending 0 10 waiting done_with-IsSteady pending-IsTable
      refl (λ e. absurd (omega (arith, e))) (omega arith) (λ e. absurd (omega (arith, e))) refl
      (sym sent_at_10) (omega arith) (omega arith)

matched : matches_frame (local_frame reply 7) sent ≡ true
unfolding matches_frame
matched = refl

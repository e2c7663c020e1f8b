-- ===== src/Aps/Tests.antt =====
-- wpan_aps.c: a device with two endpoints and a conversation.
use xbeepocs.Base.{
  Bool-cases, List, Option, [], arith, bit_or, eio, enoent, fail, false, get_or, if◌then◌else◌, inl,
  inr, none, refl, ret, some, suc, sym, true, u16, zero, ℕ, ◌+◌, ◌<◌, ◌==◌, ◌^◌, ◌∙◌, ◌∷◌, ◌≡◌, ◌≢◌,
}
use xbeepocs.Aps.{
  Conversation, EpState, Envelope, Machine, Handlers, conversation_delete, deadline, next_trans,
  with_conversation, conversation_register, is_used, conversation_at, is_expired,
  conversation_response,
}
use xbeepocs.Aps.Deadlines.{is_expired-deadline}
use xbeepocs.Aps.Register.{registered, IsAnswered, conversation_response-register}
use xbeepocs.Aps.Dispatch.{
  ClusterEntry, EndpointEntry, Actions, flag_inout, no_entry, cluster_match, endpoint_dispatch,
  envelope_dispatch,
}
use xbeepocs.Aps.Dispatch.Walk.{visible, IsFirst, IsAt}
use xbeepocs.Aps.Dispatch.Reference.{targets, total, deliver_to, envelope_dispatch_lem}
use xbeepocs.Aps.Dispatch.Guards.{IsGuarded, AllGuarded}
use xbeepocs.Aps.Dispatch.Protect.{IsAlike, envelope_dispatch-same}

-- A conversation that may last ten seconds from second 65530 on.
abbrev waiting : Conversation
waiting = record { transaction_id = 6; context = 40; timeout = deadline 10 65530; handler = some 2 }

abbrev elapsed_limit : ℕ
elapsed_limit = 10

is_expired-deadline_example :
    (0 < 10 → 10 < 2 ^ 15 → 9 < 10 → is_expired (u16 (65530 + 9)) waiting ≡ false)
    × (0 < 10 → 10 < 9 → 9 < 2 ^ 15 → is_expired (u16 (65530 + 9)) waiting ≡ true)
    × (2 ^ 15 < 10 → is_expired (u16 65530) waiting ≡ true)
    × (elapsed_limit ≡ 0 → is_expired (u16 (65530 + 9)) waiting ≡ false)
is_expired-deadline_example = is_expired-deadline waiting 2 10 65530 9 refl (omega arith) refl

-- The second record of the table is free.
abbrev state : EpState
state = record {
  last_transaction = 255;
  conversations = waiting ∷ conversation_delete ∷ waiting ∷ [];
}

abbrev after : EpState
after = with_conversation (next_trans state) 1 (registered state 3 77 10 100)

abbrev machine : EpState → Machine (List ℕ)
machine s = record { states = s ∷ []; world = 9 ∷ [] }

-- Handlers note their number, and end the conversation.
abbrev noting : Handlers (List ℕ)
noting h p i envelope m = (ret 1, record m { world = h ∷ m.world })

abbrev message : Envelope
message = record {
  ieee_address = [];
  network_address = 0xfffe;
  profile_id = 0x0104;
  cluster_id = 6;
  source_endpoint = 1;
  dest_endpoint = 0xff;
  options = 0;
  payload = 1 ∷ [];
}

-- Another transaction was counted in between.
abbrev later : EpState
later = next_trans after

as_registered :
    (j : ℕ)
    → is_used (get_or state.conversations j conversation_delete) ≡ false
    → is_used (get_or after.conversations j conversation_delete) ≡ true
    → conversation_at (machine later) 0 j ≡ get_or after.conversations j conversation_delete
as_registered j idle used = refl

one_with_id :
    (j : ℕ)
    → is_used (conversation_at (machine later) 0 j) ≡ true
    → (conversation_at (machine later) 0 j).transaction_id ≡ 0
    → j ≡ 1
one_with_id zero used same = absurd (omega (arith, same))
one_with_id (suc zero) used same = refl
one_with_id (suc (suc zero)) used same = absurd (omega (arith, same))
one_with_id (suc (suc (suc j))) used same = cc

conversation_response-register_example :
    (i : ℕ) × (conversation_at (machine later) 0 i ≡ registered state 3 77 10 100)
    × IsAnswered noting 0 i
        (noting 3 0 i (some message) (machine later))
        (conversation_response noting 0 0 (some message) (machine later))
unfolding conversation_register
conversation_response-register_example =
    conversation_response-register noting 0 3 77 10 100 0 message state after (machine later) refl
      refl as_registered
      (λ j k used used' same same'. one_with_id j used same ∙ sym (one_with_id k used' same'))

-- Two endpoints; handler 5 stands at a cluster that wants encryption.
abbrev on_off : ClusterEntry
on_off = record { cluster_id = 6; handler = some 5; context = 0; flags = 0x11 }

abbrev switch : EndpointEntry
switch = record {
  endpoint = 8;
  profile_id = 0x0104;
  handler = none;
  ep_state = none;
  device_id = 0;
  device_version = 0;
  cluster_table = some (on_off ∷ []);
}

abbrev light : EndpointEntry
light = record switch { endpoint = 9; handler = some 4; cluster_table = none }

abbrev table : List EndpointEntry
table = switch ∷ light ∷ no_entry ∷ []

abbrev actions : ℕ → Actions (List ℕ)
actions n = record {
  on_cluster = λ k envelope context w. (ret 0, if k == 5 then n ∷ w else k ∷ w);
  on_endpoint = λ k envelope s w. (ret 0, k ∷ w);
  invalid_cluster = λ envelope w. (fail eio, 99 ∷ w);
}

envelope_dispatch_lem_example :
    (message.dest_endpoint ≡ 0xff
      → let start = record message { options = bit_or message.options 0x0200 } in
        let r = deliver_to (actions 5) (targets message.profile_id (visible table)) start [] in
        envelope_dispatch (actions 5) table message [] ≡ (total r.0, r.1, r.2))
    × (message.dest_endpoint ≢ 0xff
        → (o : Option EndpointEntry) × IsFirst
            (IsAt message.dest_endpoint message.profile_id)
            (visible table)
            o
          × (envelope_dispatch (actions 5) table message [] ≡ elim o [
            | none ↦ (fail enoent, message, [])
            | some e ↦ endpoint_dispatch (actions 5) message e []
          ]))
envelope_dispatch_lem_example = envelope_dispatch_lem (actions 5) table message []

wants_encryption :
    (id : ℕ) (c : ClusterEntry)
    → cluster_match id flag_inout switch.cluster_table ≡ some c
    → c ≡ on_off
unfolding cluster_match
wants_encryption id c found = elim (Bool-cases (6 == id)) [
  | inl here ↦
      let same : cluster_match id flag_inout switch.cluster_table ≡ some on_off =
        rw (here, cluster_match) refl in
      cc
  | inr other ↦
      let nothing : cluster_match id flag_inout switch.cluster_table ≡ none =
        rw (other, cluster_match) refl in
      cc
]

switch-IsGuarded : IsGuarded 5 switch
switch-IsGuarded = record {
  wants = λ id c found has_h. let eq = wants_encryption id c found in (rw eq refl, rw eq refl);
  byte = λ id c found. let eq = wants_encryption id c found in rw eq (omega arith);
}

nothing_found :
    (e : EndpointEntry)
    → e.cluster_table ≡ none
    → (id : ℕ) (c : ClusterEntry) → cluster_match id flag_inout e.cluster_table ≢ some c
unfolding cluster_match
nothing_found e empty id c found =
    let nothing : cluster_match id flag_inout e.cluster_table ≡ none =
      rw (empty, cluster_match) refl in
    cc

bare-IsGuarded : (e : EndpointEntry) → e.cluster_table ≡ none → IsGuarded 5 e
bare-IsGuarded e empty = record {
  wants = λ id c found has_h. absurd (nothing_found e empty id c found);
  byte = λ id c found. absurd (nothing_found e empty id c found);
}

all-AllGuarded : AllGuarded 5 table
all-AllGuarded = (switch-IsGuarded, (bare-IsGuarded light refl, (bare-IsGuarded no_entry refl, tt)))

alike : IsAlike 5 (actions 5) (actions 7)
alike = record {
  clusters =
      λ k envelope context w ne. let test : (k == 5) ≡ false = ground (arith, ne) in rw test refl;
  endpoints = λ k envelope s w. refl;
  refusals = λ envelope w. refl;
}

envelope_dispatch-same_example :
    envelope_dispatch (actions 5) table message [] ≡ envelope_dispatch (actions 7) table message []
envelope_dispatch-same_example =
    envelope_dispatch-same 5 (actions 5) (actions 7) alike table message [] all-AllGuarded refl

-- The second endpoint has the only state there is.
abbrev watched : List EndpointEntry
watched = switch ∷ record light { ep_state = some 0 } ∷ no_entry ∷ []

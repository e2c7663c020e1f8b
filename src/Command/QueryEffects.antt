-- ===== src/Command/QueryEffects.antt =====
-- The callbacks of the query leave the frame counter and the flags of the device alone.
use xbeepocs.Base.{
  Bool, Bool-cases, List, Option, [], bit_and, false, if◌then◌else◌, inl, inr, none, not, refl,
  some, true, ℕ, ◌&&◌, ◌==◌, ◌∙◌, ◌∷◌, ◌≡◌,
}
use xbeepocs.Device.State.{Dev}
use xbeepocs.Command.Responses.{Response}
use xbeepocs.Command.Lists.{
  Field, no_field, hardware_version, hardware_series, firmware_version, ieee_high, ieee_low,
  payload, network, Reg, store_response, stored_bytes, poke,
}
use xbeepocs.Command.Lists.Effects.{apart_from_id, after_reg, takes, takes_all}
use xbeepocs.Command.Query.{query_handle_eo, query_handle_ai, fn_eo, fn_ai}
use xbeepocs.Command.Learned.{query_effect}

-- Neither of the two looks at the counter.
eo-apart_from_id :
    (r : Response) (d : Dev)
    → apart_from_id (query_handle_eo r d) ≡ query_handle_eo r (apart_from_id d)
unfolding query_handle_eo
eo-apart_from_id r d = elim (Bool-cases (bit_and r.flags 0x000F == 0)) [
  | inl ok ↦ rw ok refl
  | inr bad ↦ rw bad refl
]

ai-apart_from_id :
    (r : Response) (d : Dev)
    → apart_from_id (query_handle_ai r d) ≡ query_handle_ai r (apart_from_id d)
unfolding query_handle_ai
ai-apart_from_id r d = elim (Bool-cases ((bit_and r.flags 0x000F == 0) && (r.value == 0))) [
  | inl ok ↦ rw ok refl
  | inr bad ↦ rw bad refl
]

pub effect-apart_from_id :
    (c : ℕ) (r : Response) (d : Dev)
    → apart_from_id (query_effect c r d) ≡ query_effect c r (apart_from_id d)
effect-apart_from_id c r d = elim (Bool-cases (c == fn_eo)) [
  | inl eo ↦ rw eo (eo-apart_from_id r d)
  | inr not_eo ↦ elim (Bool-cases (c == fn_ai)) [
    | inl ai ↦ rw (not_eo, ai) (ai-apart_from_id r d)
    | inr not_ai ↦ rw (not_eo, not_ai) refl
  ]
]

poke-flags : (f : Field) (bytes : List ℕ) (d : Dev) → (poke f bytes d).flags ≡ d.flags
unfolding poke
poke-flags no_field bytes d = refl
poke-flags hardware_version bytes d = refl
poke-flags hardware_series bytes d = refl
poke-flags firmware_version bytes d = refl
poke-flags ieee_high bytes d = refl
poke-flags ieee_low bytes d = refl
poke-flags payload bytes d = refl
poke-flags network bytes d = refl

store_response-flags :
    (reg : Reg) (r : Response) (d : Dev) → (store_response reg r d).flags ≡ d.flags
store_response-flags reg r d = go (stored_bytes reg r) refl
  where
    go : (o : Option (List ℕ)) → stored_bytes reg r ≡ o → (store_response reg r d).flags ≡ d.flags
    go none e = unfold store_response in rw (store_response, e) refl
    go (some bytes) e =
        unfold store_response in rw (store_response, e) (poke-flags reg.offset bytes d)

effect-flags : (c : ℕ) (r : Response) (d : Dev) → (query_effect c r d).flags ≡ d.flags
unfolding query_handle_eo query_handle_ai
effect-flags c r d = cases (c == fn_eo) (c == fn_ai) (bit_and r.flags 0x000F == 0) (r.value == 0)
  where
    eo : Bool → Dev
    eo ok =
        if ok
        then record d {
          wpan = record (d.wpan) { authentication_enabled = not (bit_and r.value 0x0008 == 0) };
        }
        else d

    ai : Bool → Dev
    ai ok =
        if ok
        then record d {
          wpan = record (d.wpan) {
            joined = true;
            authenticated = if d.wpan.authentication_enabled then true else d.wpan.authenticated;
          };
        }
        else d

    cases :
        (is_eo is_ai ok zero_value : Bool)
        → (if is_eo then eo ok else if is_ai then ai (ok && zero_value) else d).flags ≡ d.flags
    cases true is_ai true zero_value = refl
    cases true is_ai false zero_value = refl
    cases false true true true = refl
    cases false true true false = refl
    cases false true false zero_value = refl
    cases false false ok zero_value = refl

pub takes_all-flags :
    (regs : List Reg) (rs : List Response) (d : Dev)
    → (takes_all query_effect regs rs d).flags ≡ d.flags
takes_all-flags [] rs d = refl
takes_all-flags (reg ∷ regs) [] d = refl
takes_all-flags (reg ∷ regs) (r ∷ rs) d =
    takes_all-flags regs rs (takes query_effect reg r d)
    ∙ called reg.callback _
    ∙ copied (bit_and r.flags 0x000F == 0)
  where
    called : (c : Option ℕ) (d : Dev) → (after_reg query_effect c r d).flags ≡ d.flags
    called none d = refl
    called (some c) d = effect-flags c r d

    copied : (b : Bool) → (if b then store_response reg r d else d).flags ≡ d.flags
    copied true = store_response-flags reg r d
    copied false = refl

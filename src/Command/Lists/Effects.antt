-- ===== src/Command/Lists/Effects.antt =====
-- What the responses to a list of commands make of the device.
use xbeepocs.Base.{
  Bool, List, Option, Ret, [], ap, bit_and, fail, false, if◌then◌else◌, none, refl, ret, some, suc,
  take, true, zero, ℕ, ◌==◌, ◌∙◌, ◌∷◌, ◌≡◌,
}
use xbeepocs.Serial.{Os}
use xbeepocs.Device.State.{Dev}
use xbeepocs.Device.{next_frame_id}
use xbeepocs.Device.Write.{frame_write}
use xbeepocs.Command.{Table, Request, get_request, handle_to_address}
use xbeepocs.Command.Sending.{cmd_send, send_request, request_header, request_id}
use xbeepocs.Command.Responses.{Response, command_w}
use xbeepocs.Command.Lists.{
  Reg, Field, no_field, hardware_version, hardware_series, firmware_version, ieee_high, ieee_low,
  payload, network, reg_valid, poke, store_response, stored_bytes, is_last,
}
use xbeepocs.Command.Lists.Run.{Machine, call_reg}

-- The device without its counter of frames, which sending moves on.
abbrev pub apart_from_id : Dev → Dev
apart_from_id d = record d { frame_id = 0 }

module _ (sys : Os) (seconds : sys.World → ℕ) where
  open sys use {World}

  send_request-device :
      (t : Table) (i : ℕ) (r : Request) (d : Dev) (w : World)
      → (send_request sys seconds t i r d w).2 ≡ d
  send_request-device t i r d w = go (written.0) refl
    where
      written : Ret × World
      written = frame_write sys d (some (request_header r)) (some (take r.param_length r.param)) w

      go : (e : Ret) → written.0 ≡ e → (send_request sys seconds t i r d w).2 ≡ d
      go (ret zero) e = unfold send_request in rw (send_request, e) refl
      go (ret (suc n)) e = unfold send_request in rw (send_request, e) refl
      go (fail x) e = unfold send_request in rw (send_request, e) refl

  pub cmd_send-device :
      (t : Table) (k : ℕ) (d : Dev) (w : World)
      → apart_from_id (cmd_send sys seconds t (ret k) d w).2 ≡ apart_from_id d
  cmd_send-device t k d w = go (handle_to_address t (ret k)) refl
    where
      numbered_device :
          (r : Request) (c : Option ℕ)
          → r.callback ≡ c
          → apart_from_id (request_id r d).1 ≡ apart_from_id d
      numbered_device r none e = unfold request_id in rw (request_id, e) refl
      numbered_device r (some c) e = unfold request_id next_frame_id in rw (request_id, e) refl

      go :
          (o : Option ℕ)
          → handle_to_address t (ret k) ≡ o
          → apart_from_id (cmd_send sys seconds t (ret k) d w).2 ≡ apart_from_id d
      go none e = unfold cmd_send in rw (cmd_send, e) refl
      go (some i) e =
          let r = get_request t i in
          let (id, d') = request_id r d in
          unfold cmd_send in
          rw (cmd_send, e)
            (ap apart_from_id (send_request-device t i (record r { frame_id = id }) d' w)
              ∙ numbered_device r r.callback refl)

-- What the callback of an entry makes of the device.
abbrev pub after_reg : (ℕ → Response → Dev → Dev) → Option ℕ → Response → Dev → Dev
after_reg effect none r d = d
after_reg effect (some c) r d = effect c r d

-- The callback of the entry changes the device only, as `effect` says.
abbrev pub Acts :
    (sys : Os) (seconds : sys.World → ℕ)
    → (ℕ → Response → Option Reg → Machine sys → Machine sys)
    → (ℕ → Response → Dev → Dev)
    → Reg
    → Type 0
Acts sys seconds on_reg effect reg =
    (r : Response) (s : Machine sys)
    → call_reg sys seconds on_reg reg.callback r (some reg) s
      ≡ record s { dev = after_reg effect reg.callback r s.dev }

abbrev pub AllAct :
    (sys : Os) (seconds : sys.World → ℕ)
    → (ℕ → Response → Option Reg → Machine sys → Machine sys)
    → (ℕ → Response → Dev → Dev)
    → List Reg
    → Type 0
AllAct sys seconds on_reg effect [] = Unit
AllAct sys seconds on_reg effect (reg ∷ regs) =
    Acts sys seconds on_reg effect reg × AllAct sys seconds on_reg effect regs

-- The effects neither read nor write the counter.
abbrev pub IgnoreId : (ℕ → Response → Dev → Dev) → Type 0
IgnoreId effect =
    (c : ℕ) (r : Response) (d : Dev) → apart_from_id (effect c r d) ≡ effect c r (apart_from_id d)

-- What a response to an entry makes of the device.
abbrev pub takes : (ℕ → Response → Dev → Dev) → Reg → Response → Dev → Dev
takes effect reg r d =
    after_reg effect reg.callback r
      (if bit_and r.flags 0x000F == 0 then store_response reg r d else d)

-- What responses to entries in turn make of it.
abbrev pub takes_all : (ℕ → Response → Dev → Dev) → List Reg → List Response → Dev → Dev
takes_all effect (reg ∷ regs) (r ∷ rs) d = takes_all effect regs rs (takes effect reg r d)
takes_all effect regs rs d = d

-- One response for each entry, in time and for its command; the entries are not the last ones of
-- their kind, XBEE_CLT_LAST.
abbrev pub Answers : List Reg → List Response → Type 0
Answers [] [] = Unit
Answers [] (r ∷ rs) = ⊥
Answers (reg ∷ regs) [] = ⊥
Answers (reg ∷ regs) (r ∷ rs) =
    ((bit_and r.flags 0x8000 ≡ 0)
      × (command_w r.command ≡ command_w reg.command)
      × (reg_valid reg ≡ true)
      × (is_last reg.type ≡ false))
    × Answers regs rs

poke-apart_from_id :
    (f : Field) (bytes : List ℕ) (d : Dev)
    → apart_from_id (poke f bytes d) ≡ poke f bytes (apart_from_id d)
unfolding poke
poke-apart_from_id no_field bytes d = refl
poke-apart_from_id hardware_version bytes d = refl
poke-apart_from_id hardware_series bytes d = refl
poke-apart_from_id firmware_version bytes d = refl
poke-apart_from_id ieee_high bytes d = refl
poke-apart_from_id ieee_low bytes d = refl
poke-apart_from_id payload bytes d = refl
poke-apart_from_id network bytes d = refl

store_response-apart_from_id :
    (reg : Reg) (r : Response) (d : Dev)
    → apart_from_id (store_response reg r d) ≡ store_response reg r (apart_from_id d)
store_response-apart_from_id reg r d = go (stored_bytes reg r) refl
  where
    go :
        (o : Option (List ℕ))
        → stored_bytes reg r ≡ o
        → apart_from_id (store_response reg r d) ≡ store_response reg r (apart_from_id d)
    go none e = unfold store_response in rw (store_response, e) refl
    go (some bytes) e =
        unfold store_response in rw (store_response, e) (poke-apart_from_id reg.offset bytes d)

-- The copy of a response does not read or write the counter, if the callback does not.
pub takes-apart_from_id :
    (effect : ℕ → Response → Dev → Dev) (reg : Reg) (r : Response) (d : Dev)
    → IgnoreId effect
    → apart_from_id (takes effect reg r d) ≡ takes effect reg r (apart_from_id d)
takes-apart_from_id effect reg r d no_id =
    called reg.callback _
    ∙ ap (after_reg effect reg.callback r) (copied (bit_and r.flags 0x000F == 0))
  where
    called :
        (c : Option ℕ) (d : Dev)
        → apart_from_id (after_reg effect c r d) ≡ after_reg effect c r (apart_from_id d)
    called none d = refl
    called (some c) d = no_id c r d

    copied :
        (b : Bool)
        → apart_from_id (if b then store_response reg r d else d)
          ≡ (if b then store_response reg r (apart_from_id d) else apart_from_id d)
    copied true = store_response-apart_from_id reg r d
    copied false = refl

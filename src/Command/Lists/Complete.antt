-- ===== src/Command/Lists/Complete.antt =====
-- A list of commands whose responses all come: `_xbee_cmd_list_callback` gets to its end.
use xbeepocs.Base.{
  Bool, List, Option, [], ap, arith, bit_and, false, length, length-append, refl, ret, some, ℕ,
  ◌++◌, ◌+◌, ◌<◌, ◌^◌, ◌∙◌, ◌∷◌, ◌≡◌,
}
use xbeepocs.Serial.{Os}
use xbeepocs.Device.State.{Dev}
use xbeepocs.Command.Responses.{Response}
use xbeepocs.Command.Lists.{Reg, reg_valid}
use xbeepocs.Command.Lists.Run.{Machine, fill_request, send, finish}
use xbeepocs.Command.Lists.Effects.{
  apart_from_id, cmd_send-device, AllAct, IgnoreId, takes, takes_all, Answers, takes-apart_from_id,
}
use xbeepocs.Command.Lists.Turns.{deliver, next_index, moved, resent, one_response}

module _ (sys : Os) (seconds : sys.World → ℕ)
    (on_reg : ℕ → Response → Option Reg → Machine sys → Machine sys) where
  -- The callback got to the end of the list: what stands there was called last.
  pub record IsComplete (effect : ℕ → Response → Dev → Dev) (regs : List Reg) (rs : List Response)
      (end_reg : Reg) (s : Machine sys) (p : Bool × Machine sys) : Type 0 where
    pub before_end : Machine sys
    pub last : Response
    pub ended :
        p
        ≡ (false, finish sys seconds on_reg (ret 0) end_reg.callback last (some end_reg) before_end)
    pub in_time : bit_and last.flags 0x8000 ≡ 0
    pub list : before_end.world.head.list ≡ s.world.head.list
    pub device : apart_from_id before_end.dev ≡ takes_all effect regs rs (apart_from_id s.dev)

  -- A list of commands that stands before an entry that ends it, of fewer than 2 ^ 16 entries, at
  -- its first command: once there is a response to each command, in time and in order, and the
  -- callbacks of the commands change the device only, the callback of lists has used the request
  -- again for each but the last, and is done: the list has status 0, and the callback of the entry
  -- that ends it is called. Until then the device is as the responses one after the other leave
  -- it, but for the identifiers that sending used.
  pub list_callback-IsComplete :
      (effect : ℕ → Response → Dev → Dev)
      → IgnoreId effect
      → (before : List Reg) (reg : Reg) (regs : List Reg) (end_reg : Reg) (after : List Reg)
        (r : Response) (rs : List Response) (s : Machine sys)
      → s.world.head.list ≡ before ++ (reg ∷ (regs ++ (end_reg ∷ after)))
      → s.world.head.index ≡ length before
      → length before + length regs + 1 < 2 ^ 16
      → AllAct sys seconds on_reg effect (reg ∷ regs)
      → Answers (reg ∷ regs) (r ∷ rs)
      → reg_valid end_reg ≡ false
      → IsComplete effect (reg ∷ regs) (r ∷ rs) end_reg s (deliver sys seconds on_reg (r ∷ rs) s)
  unfolding send fill_request
  list_callback-IsComplete effect no_id before reg [] end_reg after r [] s l i small (act, acts)
        ((early, same, good, no_last), _) over =
      let after_one =
        one_response sys seconds on_reg effect before reg (end_reg ∷ after) r [] s l i
          (omega (arith, small)) early same act in
      record {
        before_end = moved sys seconds on_reg effect reg r s;
        last = r;
        ended = after_one.1 over;
        in_time = early;
        list = refl;
        device = takes-apart_from_id effect reg r s.dev no_id;
      }
  list_callback-IsComplete effect no_id before reg [] end_reg after r (r' ∷ rs) s l i small acts
        (a, bad) over =
      absurd bad
  list_callback-IsComplete effect no_id before reg (reg' ∷ regs) end_reg after r [] s l i small acts
        (a, bad) over =
      absurd bad
  list_callback-IsComplete effect no_id before reg (reg' ∷ regs) end_reg after r (r' ∷ rs) s l i
        small (act, acts) ((early, same, good, no_last), more) over =
      let rest = regs ++ (end_reg ∷ after) in
      let (a', more') = more in
      let after_one =
        one_response sys seconds on_reg effect before reg (reg' ∷ rest) r (r' ∷ rs) s l i
          (omega (arith, small)) early same act in
      let s1 = moved sys seconds on_reg effect reg r s in
      let s2 = resent sys seconds on_reg r s1 in
      let (l', i') =
        next_index sys seconds on_reg s.world.head before (reg' ∷ rest) reg l i
          (omega (arith, small)) in
      let wide = length-append before (reg ∷ []) in
      let ih =
        list_callback-IsComplete effect no_id (before ++ (reg ∷ [])) reg' regs end_reg after r' rs
          s2 l' i' (omega (arith, wide, small)) acts (a', more') over in
      let device : apart_from_id s2.dev ≡ takes effect reg r (apart_from_id s.dev) =
        cmd_send-device sys seconds (fill_request sys seconds (ret r.handle) s1).table r.handle
          (fill_request sys seconds (ret r.handle) s1).dev s1.world.world
        ∙ takes-apart_from_id effect reg r s.dev no_id in
      record {
        before_end = ih.before_end;
        last = ih.last;
        ended = after_one.0 a'.2 a'.3 ∙ ih.ended;
        in_time = ih.in_time;
        list = ih.list;
        device = ih.device ∙ ap (takes_all effect (reg' ∷ regs) (r' ∷ rs)) device;
      }

-- ===== src/Command/Lists/Turns.antt =====
-- One response to a list of commands: what `_xbee_cmd_list_callback` does with it.
use xbeepocs.Base.{
  Bool, List, Option, [], ap, append_assoc, ap₂, arith, bit_and, false, get_or, if◌then◌else◌,
  length, length-append, refl, ret, some, subst, sym, true, u16, ℕ, ◌++◌, ◌+◌, ◌<◌, ◌==◌, ◌^◌, ◌∙◌,
  ◌∷◌, ◌≡◌,
}
use xbeepocs.Serial.{Os}
use xbeepocs.Device.State.{Dev}
use xbeepocs.Command.Responses.{Response, command_w}
use xbeepocs.Command.Lists.{Reg, Clc, reg_end, reg_valid, current, store_response, is_last}
use xbeepocs.Command.Lists.Run.{
  Machine, with_head, call_reg, fill_request, send, finish, take_response, next_entry,
  list_callback,
}
use xbeepocs.Command.Lists.Effects.{Acts, after_reg, takes}

get_or-append :
    (before rest : List Reg)
    → get_or (before ++ rest) (length before) reg_end ≡ get_or rest 0 reg_end
get_or-append [] rest = refl
get_or-append (reg ∷ before) rest = get_or-append before rest

module _ (sys : Os) (seconds : sys.World → ℕ)
    (on_reg : ℕ → Response → Option Reg → Machine sys → Machine sys) where
  -- The callback on one response after the other, until it is done with the request.
  abbrev pub deliver : List Response → Machine sys → Bool × Machine sys
  deliver [] s = (true, s)
  deliver (r ∷ rs) s =
      let (again, s') = list_callback sys seconds on_reg r s in
      let rest = deliver rs s' in if again then rest else (false, s')

  take_response-takes :
      (effect : ℕ → Response → Dev → Dev) (r : Response) (s : Machine sys)
      → Acts sys seconds on_reg effect (current s.world.head)
      → take_response sys seconds on_reg r s
        ≡ record s { dev = takes effect (current s.world.head) r s.dev }
  take_response-takes effect r s act = unfold take_response in called (bit_and r.flags 0x000F == 0)
    where
      reg : Reg
      reg = current s.world.head

      called :
          (b : Bool)
          → call_reg sys seconds on_reg reg.callback r
              (some reg)
              (if b then record s { dev = store_response reg r s.dev } else s)
            ≡ record s {
              dev =
                  after_reg effect reg.callback r (if b then store_response reg r s.dev else s.dev);
            }
      called true = act r (record s { dev = store_response reg r s.dev })
      called false = act r s

  -- What one response to the current entry does when the next one is a command.
  goes_on :
      (effect : ℕ → Response → Dev → Dev) (r : Response) (s : Machine sys)
      → Acts sys seconds on_reg effect (current s.world.head)
      → bit_and r.flags 0x8000 ≡ 0
      → command_w r.command ≡ command_w (current s.world.head).command
      → let s1 =
          with_head
            (λ clc. record clc { index = u16 (clc.index + 1) })
            (record s { dev = takes effect (current s.world.head) r s.dev }) in
        (reg_valid (current s1.world.head) ≡ true
          → is_last (current s1.world.head).type ≡ false
          → list_callback sys seconds on_reg r s ≡ (
            true,
            (send sys seconds (ret r.handle) (fill_request sys seconds (ret r.handle) s1)).1,
          ))
        × (reg_valid (current s1.world.head) ≡ false
            → list_callback sys seconds on_reg r s ≡ (
              false,
              finish sys seconds on_reg
                  (ret 0)
                  (current s1.world.head).callback
                  r
                  (some (current s1.world.head))
                  s1,
            ))
  goes_on effect r s act in_time same =
      let early : (bit_and r.flags 0x8000 == 0) ≡ true = ground (arith, in_time) in
      let matched : (command_w r.command == command_w (current s.world.head).command) ≡ true =
        ground (arith, same) in
      let taken = take_response-takes effect r s act in
      (
        λ more last.
            unfold list_callback in
            rw (early, matched, taken) (unfold next_entry in rw (more, last) refl),
        λ over.
            unfold list_callback in rw (early, matched, taken) (unfold next_entry in rw over refl),
      )

  pub at_index :
      (clc : Clc) (before rest : List Reg)
      → clc.list ≡ before ++ rest
      → clc.index ≡ length before
      → current clc ≡ get_or rest 0 reg_end
  at_index clc before rest l i = ap₂ (λ xs k. get_or xs k reg_end) l i ∙ get_or-append before rest

  pub next_index :
      (clc : Clc) (before rest : List Reg) (reg : Reg)
      → clc.list ≡ before ++ (reg ∷ rest)
      → clc.index ≡ length before
      → length before + 1 < 2 ^ 16
      → (clc.list ≡ (before ++ (reg ∷ [])) ++ rest)
        × (u16 (clc.index + 1) ≡ length (before ++ (reg ∷ [])))
  next_index clc before rest reg l i small = (
    l ∙ sym (append_assoc before (reg ∷ []) rest),
    omega (arith, i, length-append before (reg ∷ [])),
  )

  -- After a response to `reg`: the list stands at the next entry.
  abbrev pub moved : (ℕ → Response → Dev → Dev) → Reg → Response → Machine sys → Machine sys
  moved effect reg r s =
      with_head (λ clc. record clc { index = u16 (clc.index + 1) })
        (record s { dev = takes effect reg r s.dev })

  -- The next command is sent.
  abbrev pub resent : Response → Machine sys → Machine sys
  resent r s = (send sys seconds (ret r.handle) (fill_request sys seconds (ret r.handle) s)).1

  pub one_response :
      (effect : ℕ → Response → Dev → Dev)
      → (before : List Reg) (reg : Reg) (rest : List Reg) (r : Response) (rs : List Response)
        (s : Machine sys)
      → s.world.head.list ≡ before ++ (reg ∷ rest)
      → s.world.head.index ≡ length before
      → length before + 1 < 2 ^ 16
      → bit_and r.flags 0x8000 ≡ 0
      → command_w r.command ≡ command_w reg.command
      → Acts sys seconds on_reg effect reg
      → let s1 = moved effect reg r s in
        let next = get_or rest 0 reg_end in
        (reg_valid next ≡ true
          → is_last next.type ≡ false
          → deliver (r ∷ rs) s ≡ deliver rs (resent r s1))
        × (reg_valid next ≡ false
            → deliver (r ∷ rs) s
              ≡ (false, finish sys seconds on_reg (ret 0) next.callback r (some next) s1))
  one_response effect before reg rest r rs s l i small early same act =
      let here : current s.world.head ≡ reg = at_index s.world.head before (reg ∷ rest) l i in
      let (l', i') = next_index s.world.head before rest reg l i small in
      let s1 = moved effect reg r s in
      let there : current s1.world.head ≡ get_or rest 0 reg_end =
        at_index s1.world.head (before ++ (reg ∷ [])) rest l' i' in
      let (on, over) =
        goes_on effect r s (subst (Acts sys seconds on_reg effect) (sym here) act) early
          (same ∙ ap (λ q. command_w q.command) (sym here)) in
      let move : moved effect (current s.world.head) r s ≡ s1 = ap (λ q. moved effect q r s) here in
      (
        λ valid last.
            ap (λ p. if p.0 then deliver rs p.1 else (false, p.1))
              (on (ap reg_valid there ∙ valid) (ap (λ q. is_last q.type) there ∙ last)
                ∙ ap (λ u. (true, resent r u)) move),
        λ invalid.
            ap (λ p. if p.0 then deliver rs p.1 else (false, p.1))
              (over (ap reg_valid there ∙ invalid)
                ∙ ap₂ (λ u q. (false, finish sys seconds on_reg (ret 0) q.callback r (some q) u))
                    move there),
      )

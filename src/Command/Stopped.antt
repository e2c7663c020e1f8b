-- ===== src/Command/Stopped.antt =====
-- The query of the device when it does not get to its end.
use xbeepocs.Base.{
  Bool, [], ap, ap₂, arith, bit_and, eio, etimedout, fail, false, if◌then◌else◌, none, not, refl,
  some, true, ℕ, ◌&&◌, ◌++◌, ◌==◌, ◌∙◌, ◌∷◌, ◌≡◌, ◌≢◌,
}
use xbeepocs.Serial.{Os}
use xbeepocs.Device.State.{Dev}
use xbeepocs.Command.Responses.{Response}
use xbeepocs.Command.Lists.{Reg, final_reg}
use xbeepocs.Command.Lists.Run.{Machine, with_head, call_reg, finish, list_callback, list_status}
use xbeepocs.Command.Query.{
  fn_eo, fn_ai, query_handle_end, query_ended, on_query_reg, query_regs, query_end,
}

module _ (sys : Os) (seconds : sys.World → ℕ) (again : Machine sys → Machine sys) where
  -- A request of the query that times out ends it, and nothing is left running: the callback is
  -- done, the status is -ETIMEDOUT, and the device has the error flag in place of the one for a
  -- query in progress; on a device that needs no refresh and is not joined to an unknown network,
  -- no other query is started, and but for the flags nothing changes.
  pub query_times_out :
      (r : Response) (s : Machine sys)
      → s.world.head.list ≡ query_regs ++ (query_end ∷ [])
      → bit_and r.flags 0x8000 ≢ 0
      → s.dev.flags.query_refresh ≡ false
      → (s.dev.wpan.joined && (s.dev.wpan.network == 0xFFFE)) ≡ false
      → let (reused, s') = list_callback sys seconds (on_query_reg sys seconds again) r s in
        (reused ≡ false)
        × (list_status sys seconds s' ≡ fail etimedout)
        × (s'.dev.flags.query_error ≡ true)
        × (s'.dev.flags.query_inprogress ≡ false)
        × (s'.dev.wpan ≡ s.dev.wpan)
        × (s'.table ≡ s.table)
  query_times_out r s l late calm known =
      let test : not (bit_and r.flags 0x8000 == 0) ≡ true = ground (arith, late) in
      let s0 = with_head (λ clc. record clc { status = fail etimedout }) s in
      let left : Bool → Bool → Bool → Dev = λ late unknown refresh. record (s.dev) {
        flags = record (s.dev.flags) {
          query_inprogress = false;
          query_error = if late then true else s.dev.flags.query_error;
          query_done = if late then s.dev.flags.query_done else true;
          query_refresh =
              if (if late then true else s.dev.flags.query_error) && unknown then true else refresh;
        };
      } in
      let flags : query_ended r (some query_end) s.dev ≡ left true false false =
        unfold query_ended in
        ap
          (λ b.
            left b (s.dev.wpan.joined && (s.dev.wpan.network == 0xFFFE)) s.dev.flags.query_refresh)
          test
        ∙ ap₂ (left true) known calm in
      let last : final_reg s.world.head.list ≡ query_end =
        ap final_reg l ∙ (unfold final_reg in refl) in
      let on_reg = on_query_reg sys seconds again in
      let called : list_callback sys seconds on_reg r s ≡ (
        false,
        finish sys seconds on_reg (fail etimedout) (final_reg s.world.head.list).callback r
            (some (final_reg s.world.head.list)) s,
      ) =
        unfold list_callback in rw test refl in
      let ended : finish sys seconds on_reg (fail etimedout) query_end.callback r (some query_end) s
          ≡ record s0 { dev = left true false false } =
        unfold finish call_reg on_query_reg query_handle_end in
        ap
          (λ d.
            let s' : Machine sys = record s0 { dev = d } in
            if s'.dev.flags.query_refresh then again s' else s')
          flags in
      let went : list_callback sys seconds on_reg r s
          ≡ (false, record s0 { dev = left true false false }) =
        called
        ∙ ap (λ q. (false, finish sys seconds on_reg (fail etimedout) q.callback r (some q) s)) last
        ∙ ap (λ u. (false, u)) ended in
      (
        ap (λ p. p.0) went,
        ap (λ p. list_status sys seconds p.1) went,
        ap (λ p. p.1.dev.flags.query_error) went,
        ap (λ p. p.1.dev.flags.query_inprogress) went,
        ap (λ p. p.1.dev.wpan) went,
        ap (λ p. p.1.table) went,
      )

  -- The callbacks of the entries before the last one.
  data HasCallback (reg : Reg) : Type 0 where
    silent : reg.callback ≡ none → HasCallback reg
    takes_eo : reg.callback ≡ some fn_eo → HasCallback reg
    takes_ai : reg.callback ≡ some fn_ai → HasCallback reg

  -- What the callback of an entry leaves.
  abbrev having_called : Reg → Response → Machine sys → Machine sys
  having_called reg r s =
      call_reg sys seconds (on_query_reg sys seconds again) reg.callback r none
        (with_head (λ clc. record clc { status = fail eio }) s)

  record IsLeft (s s' : Machine sys) : Type 0 where
    flags : s'.dev.flags ≡ s.dev.flags
    table : s'.table ≡ s.table
    status : s'.world.head.status ≡ fail eio

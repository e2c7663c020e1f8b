-- ===== src/Command/Queried.antt =====
-- The query of the device: what the responses of the module leave in it.
use xbeepocs.Base.{
  Bool, [], ap, ap₂, arith, bit_and, drop, false, if◌then◌else◌, length, not, refl, ret, some,
  subst, sym, true, ℕ, ◌&&◌, ◌++◌, ◌==◌, ◌∙◌, ◌∷◌, ◌≡◌,
}
use xbeepocs.Serial.{Os}
use xbeepocs.Device.State.{Dev}
use xbeepocs.Command.Responses.{Response}
use xbeepocs.Command.Lists.{clt_copy_be, hardware_version, Reg}
use xbeepocs.Command.Lists.Run.{Machine, with_head, call_reg, finish, list_status}
use xbeepocs.Command.Lists.Effects.{apart_from_id, AllAct, Answers}
use xbeepocs.Command.Lists.Turns.{deliver}
use xbeepocs.Command.Lists.Complete.{list_callback-IsComplete}
use xbeepocs.Command.Query.{
  atcmd_reg, query_handle_eo, query_handle_ai, query_handle_end, query_ended, on_query_reg,
  query_regs, query_end, fn_end,
}
use xbeepocs.Command.Learned.{query_effect, responses, HasFour, AreGood, Knows, learns}
use xbeepocs.Command.QueryEffects.{effect-apart_from_id, takes_all-flags}

-- The flags when a query ends well, on a device that has no error and needs no refresh.
query_ended-flags :
    (r : Response) (reg : Reg) (d : Dev)
    → bit_and r.flags 0x8000 ≡ 0
    → d.flags.query_error ≡ false
    → d.flags.query_refresh ≡ false
    → query_ended r (some reg) d ≡ record d {
      flags = record (d.flags) {
        query_inprogress = false;
        query_error = false;
        query_done = true;
        query_refresh = false;
      };
    }
unfolding query_ended
query_ended-flags r reg d early fine calm =
    let test : not (bit_and r.flags 0x8000 == 0) ≡ false = ap (λ n. not (n == 0)) early in
    ap (λ late. left late d.flags.query_error d.flags.query_refresh) test
    ∙ ap₂ (left false) fine calm
  where
    left : Bool → Bool → Bool → Dev
    left late error refresh =
        let failed = if late then true else error in
        record d {
          flags = record (d.flags) {
            query_inprogress = false;
            query_error = failed;
            query_done = if late then d.flags.query_done else true;
            query_refresh =
                if failed && (d.wpan.joined && (d.wpan.network == 0xFFFE)) then true else refresh;
          };
        }

module _ (sys : Os) (seconds : sys.World → ℕ) (again : Machine sys → Machine sys) where
  all_act : AllAct sys seconds (on_query_reg sys seconds again) query_effect query_regs
  unfolding call_reg on_query_reg
  all_act = (
    none_acts,
    (
      none_acts,
      (none_acts, (none_acts, (none_acts, (eo_acts, (ai_acts, (none_acts, (none_acts, _))))))),
    ),
  )
    where
      none_acts : (r : Response) (s : Machine sys) → s ≡ record s { dev = s.dev }
      none_acts r s = refl

      eo_acts :
          (r : Response) (s : Machine sys)
          → record s { dev = query_handle_eo r s.dev } ≡ record s { dev = query_handle_eo r s.dev }
      eo_acts r s = refl

      ai_acts :
          (r : Response) (s : Machine sys)
          → record s { dev = query_handle_ai r s.dev } ≡ record s { dev = query_handle_ai r s.dev }
      ai_acts r s = refl

  -- What is left when the end of the list was called.
  query_finish :
      (r : Response) (s : Machine sys)
      → bit_and r.flags 0x8000 ≡ 0
      → s.dev.flags.query_error ≡ false
      → s.dev.flags.query_refresh ≡ false
      → finish sys seconds
          (on_query_reg sys seconds again)
          (ret 0)
          (some fn_end)
          r
          (some query_end)
          s
        ≡ record (with_head (λ clc. record clc { status = ret 0 }) s) {
          dev = record (s.dev) {
            flags = record (s.dev.flags) {
              query_inprogress = false;
              query_error = false;
              query_done = true;
              query_refresh = false;
            };
          };
        }
  unfolding finish call_reg on_query_reg query_handle_end
  query_finish r s early fine calm =
      let s0 = with_head (λ clc. record clc { status = ret 0 }) s in
      ap
        (λ d.
          let s' : Machine sys = record s0 { dev = d } in
          if s'.dev.flags.query_refresh then again s' else s')
        (query_ended-flags r query_end s.dev early fine calm)

  -- The query by `_xbee_atcmd_query_regs`, at its start, on a device without an error flag that
  -- needs no refresh and has room for its address: when the nine responses come, in time, each for
  -- its command, without errors, with four bytes for each half of the address, and the module has
  -- joined a network, then the callback has used the request again for each but the last and is
  -- done, the query's status is 0, its flags say that it is done and not in progress, and the
  -- device has the versions, address, payload and network that the module answered.
  pub query-IsDone :
      (hv hs vr sh sl eo ai np my : Response) (a b c d e f g h : ℕ) (s : Machine sys)
      → s.world.head.list ≡ query_regs ++ (query_end ∷ [])
      → s.world.head.index ≡ 0
      → s.dev.flags.query_error ≡ false
      → s.dev.flags.query_refresh ≡ false
      → length s.dev.wpan.ieee ≡ 8
      → Answers query_regs (responses hv hs vr sh sl eo ai np my)
      → AreGood hv hs vr sh sl eo ai np my
      → HasFour sh a b c d
      → HasFour sl e f g h
      → let (reused, s') =
          deliver sys seconds
            (on_query_reg sys seconds again)
            (responses hv hs vr sh sl eo ai np my)
            s in
        (reused ≡ false)
        × (list_status sys seconds s' ≡ ret 0)
        × (s'.dev.flags.query_done ≡ true)
        × (s'.dev.flags.query_inprogress ≡ false)
        × Knows s'.dev hv hs vr (a ∷ b ∷ c ∷ d ∷ e ∷ f ∷ g ∷ h ∷ []) np my
  query-IsDone hv hs vr sh sl eo ai np my a b c d e f g h s l i fine calm room answers good high
        low =
      let rs = responses hv hs vr sh sl eo ai np my in
      let on_reg = on_query_reg sys seconds again in
      let all =
        list_callback-IsComplete sys seconds on_reg query_effect effect-apart_from_id []
          (atcmd_reg 72 86 clt_copy_be 2 hardware_version) (drop 1 query_regs) query_end [] hv
          (drop 1 rs) s l i (omega arith) all_act answers refl in
      let before = all.before_end in
      let flags : before.dev.flags ≡ s.dev.flags =
        ap (λ z. z.flags) all.device ∙ takes_all-flags query_regs rs (apart_from_id s.dev) in
      let end_state =
        query_finish all.last before all.in_time (ap (λ z. z.query_error) flags ∙ fine)
          (ap (λ z. z.query_refresh) flags ∙ calm) in
      let went = all.ended ∙ ap (λ u. (false, u)) end_state in
      let knows =
        learns hv hs vr sh sl eo ai np my (apart_from_id s.dev) a b c d e f g h good high low
          room in
      let known : Knows before.dev hv hs vr (a ∷ b ∷ c ∷ d ∷ e ∷ f ∷ g ∷ h ∷ []) np my =
        subst (λ z. Knows z hv hs vr (a ∷ b ∷ c ∷ d ∷ e ∷ f ∷ g ∷ h ∷ []) np my) (sym all.device)
          knows in
      (
        ap (λ p. p.0) went,
        ap (λ p. list_status sys seconds p.1) went,
        ap (λ p. p.1.dev.flags.query_done) went,
        ap (λ p. p.1.dev.flags.query_inprogress) went,
        subst (λ u. Knows u.dev hv hs vr (a ∷ b ∷ c ∷ d ∷ e ∷ f ∷ g ∷ h ∷ []) np my)
            (sym (ap (λ p. p.1) went)) known,
      )

-- ===== src/Command/Learned.antt =====
-- What the responses to the query leave in the fields of the device.
use xbeepocs.Base.{
  List, [], ap, ap₂, arith, bit_and, drop, if◌then◌else◌, length, min, not, refl, replicate, splice,
  subst, sym, take, true, u16, u32, ℕ, ◌&&◌, ◌-◌, ◌==◌, ◌∙◌, ◌∷◌, ◌≡◌,
}
use xbeepocs.Device.State.{Dev}
use xbeepocs.Command.Responses.{Response}
use xbeepocs.Command.Lists.{
  Field, clt_copy_be, clt_copy_pad_left, hardware_version, hardware_series, firmware_version,
  ieee_high, ieee_low, payload, network, Reg, store_response, stored_bytes, poke, le_bytes,
}
use xbeepocs.Command.Lists.Effects.{after_reg, takes, takes_all}
use xbeepocs.Command.Query.{
  atcmd_reg, atcmd_reg_cb, query_handle_eo, query_handle_ai, query_regs, fn_eo, fn_ai,
}

-- What the callbacks of registers do with the device.
abbrev pub query_effect : ℕ → Response → Dev → Dev
query_effect c r d =
    if c == fn_eo then query_handle_eo r d else if c == fn_ai then query_handle_ai r d else d

four_and_four :
    (xs : List ℕ) (a b c d e f g h : ℕ)
    → length xs ≡ 8
    → splice (splice xs 0 (a ∷ b ∷ c ∷ d ∷ [])) 4 (e ∷ f ∷ g ∷ h ∷ [])
      ≡ a ∷ b ∷ c ∷ d ∷ e ∷ f ∷ g ∷ h ∷ []
four_and_four (x1 ∷ x2 ∷ x3 ∷ x4 ∷ x5 ∷ x6 ∷ x7 ∷ x8 ∷ []) a b c d e f g h size = refl
four_and_four xs a b c d e f g h size = absurd (omega (arith, size))

-- The nine responses.
abbrev pub responses :
    Response
    → Response
    → Response
    → Response
    → Response
    → Response
    → Response
    → Response
    → Response
    → List Response
responses hv hs vr sh sl eo ai np my = hv ∷ hs ∷ vr ∷ sh ∷ sl ∷ eo ∷ ai ∷ np ∷ my ∷ []

-- Four bytes of a response.
abbrev pub HasFour : Response → ℕ → ℕ → ℕ → ℕ → Type 0
HasFour r a b c d = (r.value_length ≡ 4) × (r.value_bytes ≡ a ∷ b ∷ c ∷ d ∷ [])

on_ok :
    (reg : Reg) (r : Response) (d : Dev)
    → r.flags ≡ 0
    → takes query_effect reg r d ≡ after_reg query_effect reg.callback r (store_response reg r d)
on_ok reg r d ok =
    let test : (bit_and r.flags 0x000F == 0) ≡ true = ap (λ n. bit_and n 0x000F == 0) ok in
    ap (λ b. after_reg query_effect reg.callback r (if b then store_response reg r d else d)) test

-- The numbers.
took_word :
    (c1 c2 : ℕ) (field : Field) (r : Response) (d : Dev)
    → r.flags ≡ 0
    → takes query_effect (atcmd_reg c1 c2 clt_copy_be 2 field) r d
      ≡ poke field (le_bytes 2 r.value) d
unfolding store_response stored_bytes
took_word c1 c2 field r d ok = on_ok (atcmd_reg c1 c2 clt_copy_be 2 field) r d ok

took_long :
    (c1 c2 : ℕ) (field : Field) (r : Response) (d : Dev)
    → r.flags ≡ 0
    → takes query_effect (atcmd_reg c1 c2 clt_copy_be 4 field) r d
      ≡ poke field (le_bytes 4 r.value) d
unfolding store_response stored_bytes
took_long c1 c2 field r d ok = on_ok (atcmd_reg c1 c2 clt_copy_be 4 field) r d ok

-- Half of the address.
took_half :
    (c1 c2 : ℕ) (field : Field) (r : Response) (d : Dev) (w x y z : ℕ)
    → r.flags ≡ 0
    → HasFour r w x y z
    → takes query_effect (atcmd_reg c1 c2 clt_copy_pad_left 4 field) r d
      ≡ poke field (w ∷ x ∷ y ∷ z ∷ []) d
unfolding store_response stored_bytes
took_half c1 c2 field r d w x y z ok (size, bytes) =
    on_ok (atcmd_reg c1 c2 clt_copy_pad_left 4 field) r d ok
    ∙ ap₂ (λ n l. poke field (splice (replicate 4 0) (4 - min n 4) (take (min n 4) l)) d) size bytes

took_eo :
    (r : Response) (d : Dev)
    → r.flags ≡ 0
    → takes query_effect (atcmd_reg_cb 69 79 fn_eo) r d ≡ query_handle_eo r d
unfolding store_response stored_bytes
took_eo r d ok = on_ok (atcmd_reg_cb 69 79 fn_eo) r d ok

took_ai :
    (r : Response) (d : Dev)
    → r.flags ≡ 0
    → takes query_effect (atcmd_reg_cb 65 73 fn_ai) r d ≡ query_handle_ai r d
unfolding store_response stored_bytes
took_ai r d ok = on_ok (atcmd_reg_cb 65 73 fn_ai) r d ok

eo_ok :
    (r : Response) (d : Dev)
    → r.flags ≡ 0
    → query_handle_eo r d ≡ record d {
      wpan = record (d.wpan) { authentication_enabled = not (bit_and r.value 0x0008 == 0) };
    }
unfolding query_handle_eo
eo_ok r d ok =
    let test : (bit_and r.flags 0x000F == 0) ≡ true = ap (λ n. bit_and n 0x000F == 0) ok in
    rw test refl

ai_ok :
    (r : Response) (d : Dev)
    → r.flags ≡ 0
    → r.value ≡ 0
    → query_handle_ai r d ≡ record d {
      wpan = record (d.wpan) {
        joined = true;
        authenticated = if d.wpan.authentication_enabled then true else d.wpan.authenticated;
      };
    }
unfolding query_handle_ai
ai_ok r d ok joined =
    let test : ((bit_and r.flags 0x000F == 0) && (r.value == 0)) ≡ true =
      ap₂ (λ n v. (bit_and n 0x000F == 0) && (v == 0)) ok joined in
    rw test refl

-- One response, then the others.
first :
    (reg : Reg) (regs : List Reg) (r : Response) (rs : List Response) (d d' e : Dev)
    → takes query_effect reg r d ≡ d'
    → takes_all query_effect regs rs d' ≡ e
    → takes_all query_effect (reg ∷ regs) (r ∷ rs) d ≡ e
first reg regs r rs d d' e one others = ap (takes_all query_effect regs rs) one ∙ others

-- No response is an error, and the module has joined a network.
pub record AreGood (hv hs vr sh sl eo ai np my : Response) : Type 0 where
  pub hv_ok : hv.flags ≡ 0
  pub hs_ok : hs.flags ≡ 0
  pub vr_ok : vr.flags ≡ 0
  pub sh_ok : sh.flags ≡ 0
  pub sl_ok : sl.flags ≡ 0
  pub eo_ok : eo.flags ≡ 0
  pub ai_ok : ai.flags ≡ 0
  pub np_ok : np.flags ≡ 0
  pub my_ok : my.flags ≡ 0
  pub joined : ai.value ≡ 0

-- What a device knows after the query.
abbrev pub Knows : Dev → Response → Response → Response → List ℕ → Response → Response → Type 0
Knows d hv hs vr ieee np my =
    (d.hardware_version ≡ u16 hv.value)
    × (d.hardware_series ≡ u16 hs.value)
    × (d.firmware_version ≡ u32 vr.value)
    × (d.wpan.ieee ≡ ieee)
    × (d.wpan.joined ≡ true)
    × (d.wpan.payload ≡ u16 np.value)
    × (d.wpan.network ≡ u16 my.value)

pub learns :
    (hv hs vr sh sl eo ai np my : Response) (d : Dev) (a b c e f g h i : ℕ)
    → AreGood hv hs vr sh sl eo ai np my
    → HasFour sh a b c e
    → HasFour sl f g h i
    → length d.wpan.ieee ≡ 8
    → Knows
        (takes_all query_effect query_regs (responses hv hs vr sh sl eo ai np my) d)
        hv
        hs
        vr
        (a ∷ b ∷ c ∷ e ∷ f ∷ g ∷ h ∷ i ∷ [])
        np
        my
unfolding poke
learns hv hs vr sh sl eo ai np my d a b c e f g h i good high low size =
    let d1 = poke hardware_version (le_bytes 2 hv.value) d in
    let d2 = poke hardware_series (le_bytes 2 hs.value) d1 in
    let d3 = poke firmware_version (le_bytes 4 vr.value) d2 in
    let d4 = poke ieee_high (a ∷ b ∷ c ∷ e ∷ []) d3 in
    let d5 = poke ieee_low (f ∷ g ∷ h ∷ i ∷ []) d4 in
    let d6 : Dev = record d5 {
      wpan = record (d5.wpan) { authentication_enabled = not (bit_and eo.value 0x0008 == 0) };
    } in
    let d7 : Dev = record d6 {
      wpan = record (d6.wpan) {
        joined = true;
        authenticated = if d6.wpan.authentication_enabled then true else d6.wpan.authenticated;
      };
    } in
    let d8 = poke payload (le_bytes 2 np.value) d7 in
    let d9 = poke network (le_bytes 2 my.value) d8 in
    let all : takes_all query_effect query_regs (responses hv hs vr sh sl eo ai np my) d ≡ d9 =
      first (atcmd_reg 72 86 clt_copy_be 2 hardware_version) (drop 1 query_regs) hv
        (hs ∷ vr ∷ sh ∷ sl ∷ eo ∷ ai ∷ np ∷ my ∷ []) d d1 d9
        (took_word 72 86 hardware_version hv d good.hv_ok)
        (first (atcmd_reg 72 83 clt_copy_be 2 hardware_series) (drop 2 query_regs) hs
          (vr ∷ sh ∷ sl ∷ eo ∷ ai ∷ np ∷ my ∷ []) d1 d2 d9
          (took_word 72 83 hardware_series hs d1 good.hs_ok)
          (first (atcmd_reg 86 82 clt_copy_be 4 firmware_version) (drop 3 query_regs) vr
            (sh ∷ sl ∷ eo ∷ ai ∷ np ∷ my ∷ []) d2 d3 d9
            (took_long 86 82 firmware_version vr d2 good.vr_ok)
            (first (atcmd_reg 83 72 clt_copy_pad_left 4 ieee_high) (drop 4 query_regs) sh
              (sl ∷ eo ∷ ai ∷ np ∷ my ∷ []) d3 d4 d9
              (took_half 83 72 ieee_high sh d3 a b c e good.sh_ok high)
              (first (atcmd_reg 83 76 clt_copy_pad_left 4 ieee_low) (drop 5 query_regs) sl
                (eo ∷ ai ∷ np ∷ my ∷ []) d4 d5 d9
                (took_half 83 76 ieee_low sl d4 f g h i good.sl_ok low)
                (first (atcmd_reg_cb 69 79 fn_eo) (drop 6 query_regs) eo (ai ∷ np ∷ my ∷ []) d5 d6
                  d9 (took_eo eo d5 good.eo_ok ∙ eo_ok eo d5 good.eo_ok)
                  (first (atcmd_reg_cb 65 73 fn_ai) (drop 7 query_regs) ai (np ∷ my ∷ []) d6 d7 d9
                    (took_ai ai d6 good.ai_ok ∙ ai_ok ai d6 good.ai_ok good.joined)
                    (first (atcmd_reg 78 80 clt_copy_be 2 payload) (drop 8 query_regs) np (my ∷ [])
                      d7 d8 d9 (took_word 78 80 payload np d7 good.np_ok)
                      (took_word 77 89 network my d8 good.my_ok)))))))) in
    subst (λ z. Knows z hv hs vr (a ∷ b ∷ c ∷ e ∷ f ∷ g ∷ h ∷ i ∷ []) np my) (sym all)
      (
        omega arith,
        omega arith,
        omega arith,
        four_and_four d.wpan.ieee a b c e f g h i size,
        refl,
        omega arith,
        omega arith,
      )

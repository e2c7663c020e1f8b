-- ===== src/Time/Months.antt =====
-- The months of `xbee_gmtime` against the tables of `xbee_mktime`.
use xbeepocs.Base.{
  Bool, Bool-cases, arith, false, get_or, holds_below, inl, inr, leb, refl, subst, suc, sym, true,
  zero, ℕ, ◌+◌, ◌-◌, ◌<◌, ◌==◌, ◌≡◌, ◌≤◌,
}
use xbeepocs.Time.{jom, dom, diy, month_loop}

-- Each month starts where the one before it ends, and the last ends with the year.
jom-suc :
    (leap : Bool) (mon : ℕ)
    → mon < 11
    → get_or (jom leap) (mon + 1) 0 ≡ get_or (jom leap) mon 0 + get_or (dom leap) mon 0
jom-suc true mon lt =
    let test =
      holds_below 11
        (λ m. get_or (jom true) (m + 1) 0 == get_or (jom true) m 0 + get_or (dom true) m 0) mon refl
        lt in
    ground (arith, test)
jom-suc false mon lt =
    let test =
      holds_below 11
        (λ m. get_or (jom false) (m + 1) 0 == get_or (jom false) m 0 + get_or (dom false) m 0) mon
        refl lt in
    ground (arith, test)

jom_last : (leap : Bool) → get_or (jom leap) 11 0 + get_or (dom leap) 11 0 ≡ diy leap
jom_last true = refl
jom_last false = refl

-- What the loop finds: a month, a day in it, and the same day of the year.
pub record IsMonth (leap : Bool) (yday : ℕ) (p : ℕ × ℕ) : Type 0 where
  pub month : p.0 < 12
  pub inside : p.1 < get_or (dom leap) p.0 0
  pub same : get_or (jom leap) p.0 0 + p.1 ≡ yday

pub month_loop-IsMonth :
    (leap : Bool) (fuel mon days : ℕ)
    → mon + fuel ≡ 12
    → get_or (jom leap) mon 0 + days < diy leap
    → 0 < fuel
    → IsMonth leap (get_or (jom leap) mon 0 + days) (month_loop leap fuel mon days)
unfolding month_loop
month_loop-IsMonth leap zero mon days e lt more = absurd (omega arith)
month_loop-IsMonth leap (suc fuel) mon days e lt more =
    let size = get_or (dom leap) mon 0 in
    elim (Bool-cases (leb size days)) [
      | inr here ↦
          rw here (record { month = omega arith; inside = ground (arith, here); same = refl })
      | inl past ↦
          let enough : size ≤ days = ground (arith, past) in
          elim (Bool-cases (mon == 11)) [
            | inl last ↦
                let eq : mon ≡ 11 = ground (arith, last) in
                let whole =
                  subst (λ m. get_or (jom leap) m 0 + get_or (dom leap) m 0 ≡ diy leap) (sym eq)
                    (jom_last leap) in
                absurd (omega (arith, whole))
            | inr before ↦
                let small : mon < 11 = ground (arith, before) in
                let next = jom-suc leap mon small in
                let ih =
                  month_loop-IsMonth leap fuel (mon + 1) (days - size) (omega arith)
                    (omega (arith, next)) (omega arith) in
                rw past (record {
                  month = ih.month;
                  inside = ih.inside;
                  same = omega (arith, ih.same, next, enough);
                })
          ]
    ]

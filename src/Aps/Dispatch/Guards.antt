-- ===== src/Aps/Dispatch/Guards.antt =====
-- wpan_aps.c: endpoints whose clusters with a given handler want encryption.
use xbeepocs.Base.{
  Bool, Bool-cases, List, [], false, inl, inr, refl, some, subst, sym, true, ℕ, ◌<◌, ◌==◌, ◌^◌, ◌∙◌,
  ◌∷◌, ◌≡◌,
}
use xbeepocs.Aps.Dispatch.Walk.{until_end, visible, find}
use xbeepocs.Aps.Dispatch.Reference.{targets}
use xbeepocs.Aps.Dispatch.{
  ClusterEntry, EndpointEntry, end_of_list, is_set, flag_not_zcl, flag_encrypt, flag_inout,
  cluster_match,
}

-- The clusters of a table with this handler are ZCL clusters that want encryption, and the flags
-- of all its clusters are a byte.
pub record IsGuarded (h : ℕ) (e : EndpointEntry) : Type 0 where
  pub wants :
      (id : ℕ) (c : ClusterEntry)
      → cluster_match id flag_inout e.cluster_table ≡ some c
      → c.handler ≡ some h
      → (is_set c.flags flag_not_zcl ≡ false) × (is_set c.flags flag_encrypt ≡ true)
  pub byte :
      (id : ℕ) (c : ClusterEntry)
      → cluster_match id flag_inout e.cluster_table ≡ some c
      → c.flags < 2 ^ 8

abbrev pub AllGuarded : ℕ → List EndpointEntry → Type 0
AllGuarded h [] = Unit
AllGuarded h (e ∷ es) = IsGuarded h e × AllGuarded h es

AllGuarded-until_end :
    (h : ℕ) (es : List EndpointEntry) → AllGuarded h es → AllGuarded h (until_end es)
unfolding until_end
AllGuarded-until_end h [] all = tt
AllGuarded-until_end h (e ∷ es) (guarded, all) = elim (Bool-cases (e.endpoint == end_of_list)) [
  | inl ends ↦ rw ends tt
  | inr goes ↦ rw goes (guarded, AllGuarded-until_end h es all)
]

pub AllGuarded-visible :
    (h : ℕ) (es : List EndpointEntry) → AllGuarded h es → AllGuarded h (visible es)
unfolding visible
AllGuarded-visible h [] all = tt
AllGuarded-visible h (e ∷ es) (guarded, all) = (guarded, AllGuarded-until_end h es all)

pub AllGuarded-targets :
    (h profile_id : ℕ) (es : List EndpointEntry)
    → AllGuarded h es
    → AllGuarded h (targets profile_id es)
unfolding targets
AllGuarded-targets h profile_id [] all = tt
AllGuarded-targets h profile_id (e ∷ es) (guarded, all) =
    elim (Bool-cases (profile_id == e.profile_id)) [
      | inl ours ↦ rw ours (guarded, AllGuarded-targets h profile_id es all)
      | inr other ↦ rw other (AllGuarded-targets h profile_id es all)
    ]

pub AllGuarded-find :
    (h : ℕ) (test : EndpointEntry → Bool) (es : List EndpointEntry)
    → AllGuarded h es
    → (e : EndpointEntry) → find test es ≡ some e
    → IsGuarded h e
unfolding find
AllGuarded-find h test [] all e found = cc
AllGuarded-find h test (x ∷ es) (guarded, all) e found = elim (Bool-cases (test x)) [
  | inl here ↦
      let same : some x ≡ some e = sym (rw (here, find) refl) ∙ found in
      let eq : x ≡ e = cc in subst (IsGuarded h) eq guarded
  | inr not_here ↦ AllGuarded-find h test es all e (sym (rw (not_here, find) refl) ∙ found)
]

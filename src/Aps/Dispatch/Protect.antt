-- ===== src/Aps/Dispatch/Protect.antt =====
-- wpan_aps.c: an envelope that was not encrypted does not reach a cluster that wants encryption.
use xbeepocs.Base.{
  ==_iff, Bool-cases, List, Option, Option-cases, Ret, [], ap, arith, bit_and, bit_and_digit,
  bit_at, bit_at-bit_and, bit_at-bit_or, bit_or, enoent, fail, false, inl, inr, none, not, refl,
  some, subst, sym, true, ℕ, ◌<◌, ◌==◌, ◌^◌, ◌∙◌, ◌∷◌, ◌≡◌, ◌≢◌,
}
use xbeepocs.Aps.{Envelope}
use xbeepocs.Aps.Register.{clash}
use xbeepocs.Aps.Dispatch.Walk.{visible, find}
use xbeepocs.Aps.Dispatch.Guards.{
  IsGuarded, AllGuarded, AllGuarded-visible, AllGuarded-targets, AllGuarded-find,
}
use xbeepocs.Aps.Dispatch.Reference.{targets, total, deliver, envelope_dispatch-deliver}
use xbeepocs.Aps.Dispatch.{
  ClusterEntry, EndpointEntry, Actions, is_set, is_refused, mark_cluster, readdress, is_match,
  broadcast_ep, rx_aps_encrypt, flag_not_zcl, flag_encrypt, flag_inout, by_endpoint, by_cluster,
  cluster_match, endpoint_dispatch, envelope_dispatch,
}

-- The bit of `WPAN_ENVELOPE_RX_APS_ENCRYPT` is clear.
abbrev pub IsPlain : Envelope → Type 0
IsPlain envelope = bit_at 10 envelope.options ≡ 0

IsPlain-is_set :
    (envelope : Envelope) → IsPlain envelope → is_set envelope.options rx_aps_encrypt ≡ false
IsPlain-is_set envelope plain =
    let none_set : bit_and envelope.options (2 ^ 10) ≡ 0 =
      omega (arith, bit_and_digit 10 envelope.options, plain) in
    ap not ((==_iff _ 0).1 none_set)

or-IsPlain :
    (options flags : ℕ)
    → bit_at 10 options ≡ 0
    → flags < 2 ^ 10
    → bit_at 10 (bit_or options flags) ≡ 0
or-IsPlain options flags plain small = omega (arith, bit_at-bit_or 10 options flags, plain)

and-IsPlain : (options mask : ℕ) → bit_at 10 options ≡ 0 → bit_at 10 (bit_and options mask) ≡ 0
and-IsPlain options mask plain = omega (arith, bit_at-bit_and 10 options mask, plain)

-- Two programs that differ at most in what one cluster handler does.
pub record IsAlike (h : ℕ) {World : Type 0} (act act' : Actions World) : Type 0 where
  pub clusters :
      (k : ℕ) (envelope : Envelope) (context : ℕ) (w : World)
      → k ≢ h
      → act.on_cluster k envelope context w ≡ act'.on_cluster k envelope context w
  pub endpoints :
      (k : ℕ) (envelope : Envelope) (state : Option ℕ) (w : World)
      → act.on_endpoint k envelope state w ≡ act'.on_endpoint k envelope state w
  pub refusals :
      (envelope : Envelope) (w : World)
      → act.invalid_cluster envelope w ≡ act'.invalid_cluster envelope w

-- A result and those of the endpoints after it.
abbrev with_result :
    {World : Type 0}
    → Actions World
    → List EndpointEntry
    → Ret × Envelope × World
    → List Ret × Envelope × World
with_result act es r = let rest = deliver act es r.1 r.2 in (r.0 ∷ rest.0, rest.1, rest.2)

module _ (h : ℕ) {World : Type 0} (act act' : Actions World) (alike : IsAlike h act act') where
  by_endpoint-same :
      (envelope : Envelope) (e : EndpointEntry) (w : World)
      → by_endpoint act envelope e w ≡ by_endpoint act' envelope e w
  by_endpoint-same envelope e w = elim (Option-cases e.handler) [
    | inl idle ↦ rw idle refl
    | inr (k, has_h) ↦
        rw has_h (ap (λ r. (r.0, envelope, r.1)) (alike.endpoints k envelope e.ep_state w))
  ]

  by_cluster-same :
      (envelope : Envelope) (e : EndpointEntry) (c : ClusterEntry) (w : World)
      → IsPlain envelope
      → (c.handler ≡ some h
          → (is_set c.flags flag_not_zcl ≡ false) × (is_set c.flags flag_encrypt ≡ true))
      → by_cluster act envelope e c w ≡ by_cluster act' envelope e c w
  unfolding by_cluster is_refused
  by_cluster-same envelope e c w plain wants = elim (Bool-cases (is_refused envelope c)) [
    | inl refused ↦
        rw (refused, by_cluster) (ap (λ r. (r.0, envelope, r.1)) (alike.refusals envelope w))
    | inr taken ↦ elim (Option-cases c.handler) [
      | inl idle ↦ rw (taken, idle, by_cluster) (by_endpoint-same (mark_cluster envelope c) e w)
      | inr (k, has_h) ↦
          let other : k ≢ h = λ eq.
            let w' = wants (has_h ∙ ap some eq) in
            let refused : is_refused envelope c ≡ true =
              rw (IsPlain-is_set envelope plain, w'.0, w'.1, is_refused) refl in
            clash _ refused taken in
          rw (taken, has_h, by_cluster)
            (ap (λ r. (r.0, mark_cluster envelope c, r.1))
              (alike.clusters k (mark_cluster envelope c) c.context w other))
    ]
  ]

  endpoint_dispatch-same :
      (envelope : Envelope) (e : EndpointEntry) (w : World)
      → IsGuarded h e
      → IsPlain envelope
      → endpoint_dispatch act envelope e w ≡ endpoint_dispatch act' envelope e w
  unfolding endpoint_dispatch
  endpoint_dispatch-same envelope e w guarded plain =
      elim (Option-cases (cluster_match envelope.cluster_id flag_inout e.cluster_table)) [
        | inl none_found ↦ rw (none_found, endpoint_dispatch) (by_endpoint-same envelope e w)
        | inr (c, found) ↦
            rw (found, endpoint_dispatch)
              (by_cluster-same envelope e c w plain (guarded.wants envelope.cluster_id c found))
      ]

  by_endpoint-envelope :
      (envelope : Envelope) (e : EndpointEntry) (w : World)
      → (by_endpoint act envelope e w).1 ≡ envelope
  by_endpoint-envelope envelope e w = elim (Option-cases e.handler) [
    | inl idle ↦ rw idle refl
    | inr (k, has_h) ↦ rw has_h refl
  ]

  by_cluster-IsPlain :
      (envelope : Envelope) (e : EndpointEntry) (c : ClusterEntry) (w : World)
      → IsPlain envelope
      → c.flags < 2 ^ 8
      → IsPlain (by_cluster act envelope e c w).1
  unfolding by_cluster
  by_cluster-IsPlain envelope e c w plain byte =
      let marked : IsPlain (mark_cluster envelope c) =
        or-IsPlain envelope.options c.flags plain (omega (arith, byte)) in
      elim (Bool-cases (is_refused envelope c)) [
        | inl refused ↦ rw (refused, by_cluster) plain
        | inr taken ↦ elim (Option-cases c.handler) [
          | inl idle ↦
              rw (taken, idle, by_cluster)
                (ap (λ v. bit_at 10 v.options) (by_endpoint-envelope (mark_cluster envelope c) e w)
                  ∙ marked)
          | inr (k, has_h) ↦ rw (taken, has_h, by_cluster) marked
        ]
      ]

  endpoint_dispatch-IsPlain :
      (envelope : Envelope) (e : EndpointEntry) (w : World)
      → IsGuarded h e
      → IsPlain envelope
      → IsPlain (endpoint_dispatch act envelope e w).1
  unfolding endpoint_dispatch
  endpoint_dispatch-IsPlain envelope e w guarded plain =
      elim (Option-cases (cluster_match envelope.cluster_id flag_inout e.cluster_table)) [
        | inl none_found ↦
            rw (none_found, endpoint_dispatch)
              (ap (λ v. bit_at 10 v.options) (by_endpoint-envelope envelope e w) ∙ plain)
        | inr (c, found) ↦
            rw (found, endpoint_dispatch)
              (by_cluster-IsPlain envelope e c w plain (guarded.byte envelope.cluster_id c found))
      ]

  deliver-same :
      (es : List EndpointEntry) (envelope : Envelope) (w : World)
      → AllGuarded h es
      → IsPlain envelope
      → deliver act es envelope w ≡ deliver act' es envelope w
  unfolding deliver
  deliver-same [] envelope w all plain = refl
  deliver-same (e ∷ es) envelope w (guarded, all) plain =
      let start = readdress envelope e in
      let ready : IsPlain start = and-IsPlain envelope.options 0xff00 plain in
      let same = endpoint_dispatch-same start e w guarded ready in
      let after : IsPlain (endpoint_dispatch act' start e w).1 =
        subst (λ r. IsPlain r.1) same (endpoint_dispatch-IsPlain start e w guarded ready) in
      let r' = endpoint_dispatch act' start e w in
      ap (with_result act es) same
      ∙ ap (λ t. (r'.0 ∷ t.0, t.1, t.2)) (deliver-same es r'.1 r'.2 all after)

  -- An envelope that came without APS encryption, to one endpoint or to all: if every cluster
  -- with a given handler is a ZCL cluster with the flag ENCRYPT, then the result, the envelope and
  -- everything else come out the same whatever this handler would do.
  pub envelope_dispatch-same :
      (table : List EndpointEntry) (envelope : Envelope) (w : World)
      → AllGuarded h table
      → IsPlain envelope
      → envelope_dispatch act table envelope w ≡ envelope_dispatch act' table envelope w
  envelope_dispatch-same table envelope w all plain =
      elim (Bool-cases (envelope.dest_endpoint == 0xff)) [
        | inl to_all ↦
            let eq = (==_iff envelope.dest_endpoint 0xff).0 to_all in
            let start = record envelope { options = bit_or envelope.options broadcast_ep } in
            let marked : IsPlain start =
              or-IsPlain envelope.options broadcast_ep plain (omega arith) in
            (envelope_dispatch-deliver act table envelope w).0 eq
            ∙ ap (λ r. (total r.0, r.1, r.2))
                (deliver-same (targets envelope.profile_id (visible table)) start w
                  (AllGuarded-targets h envelope.profile_id (visible table)
                    (AllGuarded-visible h table all))
                  marked)
            ∙ sym ((envelope_dispatch-deliver act' table envelope w).0 eq)
        | inr to_one ↦
            let ne : envelope.dest_endpoint ≢ 0xff = ground (arith, to_one) in
            (envelope_dispatch-deliver act table envelope w).1 ne
            ∙ one_same (find (is_match envelope.dest_endpoint envelope.profile_id) (visible table))
                (AllGuarded-find h (is_match envelope.dest_endpoint envelope.profile_id)
                  (visible table) (AllGuarded-visible h table all))
            ∙ sym ((envelope_dispatch-deliver act' table envelope w).1 ne)
      ]
    where
      one_same :
          (o : Option EndpointEntry)
          → ((e : EndpointEntry) → o ≡ some e → IsGuarded h e)
          → (elim o as (λ x. Ret × Envelope × World) [
            | none ↦ (fail enoent, envelope, w)
            | some e ↦ endpoint_dispatch act envelope e w
          ])
            ≡ (elim o as (λ x. Ret × Envelope × World) [
              | none ↦ (fail enoent, envelope, w)
              | some e ↦ endpoint_dispatch act' envelope e w
            ])
      one_same none found = refl
      one_same (some e) found = endpoint_dispatch-same envelope e w (found e refl) plain

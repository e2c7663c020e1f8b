-- ===== src/Aps/Dispatch/Reference.antt =====
-- wpan_aps.c: what `wpan_envelope_dispatch` does, without its walks through the endpoint table.
use xbeepocs.Base.{
  ==_iff, Bool-cases, List, Option, Option-cases, Ret, [], ap, arith, bit_and_high_byte, bit_or,
  drop, enoent, fail, false, if◌then◌else◌, inl, inr, length, none, refl, ret, some, suc, true,
  zero, ℕ, ◌%◌, ◌*◌, ◌+◌, ◌/◌, ◌<◌, ◌==◌, ◌^◌, ◌∙◌, ◌∷◌, ◌≡◌, ◌≢◌,
}
use xbeepocs.Aps.{Envelope}
use xbeepocs.Aps.Dispatch.Walk.{
  until_end, visible, find, walk_step, endpoint_match-find, stop, next, IsFirst, IsAt, find-IsFirst,
}
use xbeepocs.Aps.Dispatch.{
  ClusterEntry, EndpointEntry, Actions, Outcome, is_match, mark_cluster, readdress, broadcast_ep,
  by_endpoint, is_refused, by_cluster, cluster_match, endpoint_dispatch, merge, broadcast_from,
  envelope_dispatch, flag_inout,
}

-- The endpoints of a profile.
unfoldable pub targets : ℕ → List EndpointEntry → List EndpointEntry
targets profile_id [] = []
targets profile_id (e ∷ es) =
    let rest = targets profile_id es in if profile_id == e.profile_id then e ∷ rest else rest

-- 0 if a result is 0.
unfoldable pub total : List Ret → Ret
total [] = fail enoent
total (ret zero ∷ rs) = ret 0
total (ret (suc n) ∷ rs) = total rs
total (fail e ∷ rs) = total rs

abbrev merged : Ret → List Ret → Ret
merged so_far [] = so_far
merged so_far (r ∷ rs) = merged (merge so_far r) rs

merged-zero : (rs : List Ret) → merged (ret 0) rs ≡ ret 0
merged-zero [] = refl
merged-zero (ret zero ∷ rs) = merged-zero rs
merged-zero (ret (suc n) ∷ rs) = merged-zero rs
merged-zero (fail e ∷ rs) = merged-zero rs

merged-total : (rs : List Ret) → merged (fail enoent) rs ≡ total rs
unfolding total
merged-total [] = refl
merged-total (ret zero ∷ rs) = merged-zero rs
merged-total (ret (suc n) ∷ rs) = merged-total rs
merged-total (fail e ∷ rs) = merged-total rs

module _ {World : Type 0} (act : Actions World) where
  -- The envelope goes to each of some endpoints in turn.
  unfoldable pub deliver : List EndpointEntry → Envelope → World → List Ret × Envelope × World
  unfolding endpoint_dispatch
  deliver [] envelope w = ([], envelope, w)
  deliver (e ∷ es) envelope w =
      let r = endpoint_dispatch act (readdress envelope e) e w in
      let rest = deliver es r.1 r.2 in (r.0 ∷ rest.0, rest.1, rest.2)

  by_endpoint-profile_id :
      (envelope : Envelope) (e : EndpointEntry) (w : World)
      → (by_endpoint act envelope e w).1.profile_id ≡ envelope.profile_id
  by_endpoint-profile_id envelope e w = elim (Option-cases e.handler) [
    | inl idle ↦ rw idle refl
    | inr (h, has_h) ↦ rw has_h refl
  ]

  by_cluster-profile_id :
      (envelope : Envelope) (e : EndpointEntry) (c : ClusterEntry) (w : World)
      → (by_cluster act envelope e c w).1.profile_id ≡ envelope.profile_id
  unfolding by_cluster
  by_cluster-profile_id envelope e c w = elim (Bool-cases (is_refused envelope c)) [
    | inl refused ↦ rw (refused, by_cluster) refl
    | inr taken ↦ elim (Option-cases c.handler) [
      | inl idle ↦
          rw (taken, idle, by_cluster) (by_endpoint-profile_id (mark_cluster envelope c) e w)
      | inr (h, has_h) ↦ rw (taken, has_h, by_cluster) refl
    ]
  ]

  endpoint_dispatch-profile_id :
      (envelope : Envelope) (e : EndpointEntry) (w : World)
      → (endpoint_dispatch act envelope e w).1.profile_id ≡ envelope.profile_id
  unfolding endpoint_dispatch
  endpoint_dispatch-profile_id envelope e w =
      elim (Option-cases (cluster_match envelope.cluster_id flag_inout e.cluster_table)) [
        | inl none_found ↦ rw (none_found, endpoint_dispatch) (by_endpoint-profile_id envelope e w)
        | inr (c, found) ↦ rw (found, endpoint_dispatch) (by_cluster-profile_id envelope e c w)
      ]

  abbrev outcome : Ret → List Ret × Envelope × World → Outcome World
  outcome so_far r = (merged so_far r.0, r.1, r.2)

  broadcast_from-deliver :
      (table : List EndpointEntry) (n i : ℕ) (so_far : Ret) (envelope : Envelope) (w : World)
      (rest : List EndpointEntry)
      → drop (i + 1) table ≡ rest
      → length rest < n
      → broadcast_from act table n (some i) so_far envelope w
        ≡ outcome so_far (deliver (targets envelope.profile_id (until_end rest)) envelope w)
  unfolding broadcast_from deliver targets
  broadcast_from-deliver table zero i so_far envelope w rest h lt = absurd (omega arith)
  broadcast_from-deliver table (suc n) i so_far envelope w rest h lt =
      elim (walk_step table i rest h) [
        | stop none_next nothing ↦ rw (none_next, nothing, broadcast_from) refl
        | next e es split goes here after whole ↦
            let fewer : length rest ≡ length es + 1 = rw split (omega arith) in
            let r = endpoint_dispatch act (readdress envelope e) e w in
            let same : r.1.profile_id ≡ envelope.profile_id =
              endpoint_dispatch-profile_id (readdress envelope e) e w in
            elim (Bool-cases (envelope.profile_id == e.profile_id)) [
              | inl ours ↦
                  rw (goes, here, whole, ours, broadcast_from)
                    (broadcast_from-deliver table n (i + 1) (merge so_far r.0) r.1 r.2 es after
                        (omega (arith, fewer))
                      ∙ ap
                          (λ p.
                            outcome (merge so_far r.0) (deliver (targets p (until_end es)) r.1 r.2))
                          same)
              | inr other ↦
                  rw (goes, here, whole, other, broadcast_from)
                    (broadcast_from-deliver table n (i + 1) so_far envelope w es after
                      (omega (arith, fewer)))
            ]
      ]

  all_of : (r : List Ret × Envelope × World) → outcome (fail enoent) r ≡ (total r.0, r.1, r.2)
  all_of r = ap (λ t. (t, r.1, r.2)) (merged-total r.0)

  broadcast-deliver :
      (table : List EndpointEntry) (envelope : Envelope) (w : World)
      → let r = deliver (targets envelope.profile_id (visible table)) envelope w in
        broadcast_from act table (suc (length table)) none (fail enoent) envelope w
        ≡ (total r.0, r.1, r.2)
  unfolding broadcast_from visible deliver targets total
  broadcast-deliver [] envelope w = refl
  broadcast-deliver (e ∷ es) envelope w =
      let r = endpoint_dispatch act (readdress envelope e) e w in
      let same : r.1.profile_id ≡ envelope.profile_id =
        endpoint_dispatch-profile_id (readdress envelope e) e w in
      elim (Bool-cases (envelope.profile_id == e.profile_id)) [
        | inl ours ↦
            rw (ours, broadcast_from)
              (broadcast_from-deliver (e ∷ es) (suc (length es)) 0 (merge (fail enoent) r.0) r.1 r.2
                  es refl (omega arith)
                ∙ ap
                    (λ p.
                      outcome (merge (fail enoent) r.0)
                        (deliver (targets p (until_end es)) r.1 r.2))
                    same
                ∙ all_of (deliver (e ∷ targets envelope.profile_id (until_end es)) envelope w))
        | inr other ↦
            rw (other, broadcast_from)
              (broadcast_from-deliver (e ∷ es) (suc (length es)) 0 (fail enoent) envelope w es refl
                  (omega arith)
                ∙ all_of (deliver (targets envelope.profile_id (until_end es)) envelope w))
      ]

  pub envelope_dispatch-deliver :
      (table : List EndpointEntry) (envelope : Envelope) (w : World)
      → (envelope.dest_endpoint ≡ 0xff
          → let start = record envelope { options = bit_or envelope.options broadcast_ep } in
            let r = deliver (targets envelope.profile_id (visible table)) start w in
            envelope_dispatch act table envelope w ≡ (total r.0, r.1, r.2))
        × (envelope.dest_endpoint ≢ 0xff
            → envelope_dispatch act table envelope w
              ≡ elim (find (is_match envelope.dest_endpoint envelope.profile_id) (visible table)) [
                | none ↦ (fail enoent, envelope, w)
                | some e ↦ endpoint_dispatch act envelope e w
              ])
  unfolding envelope_dispatch
  envelope_dispatch-deliver table envelope w = (
    λ to_all.
        let test : (envelope.dest_endpoint == 0xff) ≡ true =
          (==_iff envelope.dest_endpoint 0xff).1 to_all in
        rw (test, envelope_dispatch)
          (broadcast-deliver table
            (record envelope { options = bit_or envelope.options broadcast_ep }) w),
    λ to_one.
        let test : (envelope.dest_endpoint == 0xff) ≡ false = ground (arith, to_one) in
        rw
          (
            test,
            endpoint_match-find table envelope.dest_endpoint envelope.profile_id,
            envelope_dispatch,
          )
          refl,
  )

  -- The envelope with an endpoint's number, and without the low 8 bits of its 16 options, which
  -- are the flags of a cluster.
  abbrev pub addressed_to : EndpointEntry → Envelope → Envelope
  addressed_to e envelope = record envelope {
    dest_endpoint = e.endpoint;
    options = envelope.options / 2 ^ 8 % 2 ^ 8 * 2 ^ 8;
  }

  unfoldable pub deliver_to : List EndpointEntry → Envelope → World → List Ret × Envelope × World
  unfolding endpoint_dispatch
  deliver_to [] envelope w = ([], envelope, w)
  deliver_to (e ∷ es) envelope w =
      let r = endpoint_dispatch act (addressed_to e envelope) e w in
      let rest = deliver_to es r.1 r.2 in (r.0 ∷ rest.0, rest.1, rest.2)

  abbrev with_result : List EndpointEntry → Outcome World → List Ret × Envelope × World
  with_result es r = let rest = deliver_to es r.1 r.2 in (r.0 ∷ rest.0, rest.1, rest.2)

  deliver-deliver_to :
      (es : List EndpointEntry) (envelope : Envelope) (w : World)
      → deliver es envelope w ≡ deliver_to es envelope w
  unfolding deliver deliver_to
  deliver-deliver_to [] envelope w = refl
  deliver-deliver_to (e ∷ es) envelope w =
      let r = endpoint_dispatch act (readdress envelope e) e w in
      let same : readdress envelope e ≡ addressed_to e envelope =
        ap (λ o. record envelope { dest_endpoint = e.endpoint; options = o })
          (bit_and_high_byte envelope.options) in
      ap (λ t. (r.0 ∷ t.0, t.1, t.2)) (deliver-deliver_to es r.1 r.2)
      ∙ ap (λ v. with_result es (endpoint_dispatch act v e w)) same

  -- An envelope to endpoint 255 goes to every endpoint of its profile, in the order of the table
  -- up to its end, each time with that endpoint's number and with the cluster flags of the time
  -- before, the low 8 bits of the options, taken away; the result is 0 if one of them returns 0,
  -- and -ENOENT otherwise. Any other goes to the first endpoint up to the end of the table with
  -- its number and profile (or of any profile for 0xffff), whose result is returned; where there
  -- is none it is -ENOENT and nothing else happens. The first entry never counts as the end.
  pub envelope_dispatch_lem :
      (table : List EndpointEntry) (envelope : Envelope) (w : World)
      → (envelope.dest_endpoint ≡ 0xff
          → let start = record envelope { options = bit_or envelope.options 0x0200 } in
            let r = deliver_to (targets envelope.profile_id (visible table)) start w in
            envelope_dispatch act table envelope w ≡ (total r.0, r.1, r.2))
        × (envelope.dest_endpoint ≢ 0xff
            → (o : Option EndpointEntry) × IsFirst
                (IsAt envelope.dest_endpoint envelope.profile_id)
                (visible table)
                o
              × (envelope_dispatch act table envelope w ≡ elim o [
                | none ↦ (fail enoent, envelope, w)
                | some e ↦ endpoint_dispatch act envelope e w
              ]))
  envelope_dispatch_lem table envelope w =
      let (to_all, to_one) = envelope_dispatch-deliver table envelope w in
      let start = record envelope { options = bit_or envelope.options 0x0200 } in
      (
        λ all.
            to_all all
            ∙ ap (λ r. (total r.0, r.1, r.2))
                (deliver-deliver_to (targets envelope.profile_id (visible table)) start w),
        λ one. (
          find (is_match envelope.dest_endpoint envelope.profile_id) (visible table),
          find-IsFirst envelope.dest_endpoint envelope.profile_id (visible table),
          to_one one,
        ),
      )

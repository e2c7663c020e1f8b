-- ===== src/Aps/Dispatch.antt =====
-- libraries/xbee_ansic_library/src/wpan/wpan_aps.c and include/wpan/aps.h: the endpoint table of a
-- device, and an envelope on its way to the handlers. A table is a list of its entries; a pointer
-- to an entry of it is an index. The device has no walk of its own (`endpoint_get_next`).
pub mod Walk
pub mod Reference
pub mod Guards
pub mod Protect
use xbeepocs.Base.{
  Bool, List, Option, Ret, [], bit_and, bit_or, enoent, fail, false, get_elem?, get_or,
  if◌then◌else◌, length, none, not, ret, some, suc, true, zero, ℕ, ◌&&◌, ◌+◌, ◌==◌, ◌||◌, ◌∷◌,
}
use xbeepocs.Aps.{Envelope}

pub record ClusterEntry : Type 0 where
  pub cluster_id : ℕ
  pub handler : Option ℕ
  pub context : ℕ
  pub flags : ℕ

pub record EndpointEntry : Type 0 where
  pub endpoint : ℕ
  pub profile_id : ℕ
  pub handler : Option ℕ
  pub ep_state : Option ℕ
  pub device_id : ℕ
  pub device_version : ℕ
  pub cluster_table : Option (List ClusterEntry)

-- `WPAN_CLUST_FLAG_*` and `WPAN_ENVELOPE_*`, each a single bit.
abbrev pub flag_inout : ℕ
flag_inout = 0x03

abbrev pub flag_encrypt : ℕ
flag_encrypt = 0x10

abbrev pub flag_encrypt_unicast : ℕ
flag_encrypt_unicast = 0x20

abbrev pub flag_not_zcl : ℕ
flag_not_zcl = 0x80

abbrev pub broadcast_addr : ℕ
broadcast_addr = 0x0100

abbrev pub broadcast_ep : ℕ
broadcast_ep = 0x0200

abbrev pub rx_aps_encrypt : ℕ
rx_aps_encrypt = 0x0400

abbrev pub end_of_list : ℕ
end_of_list = 0xff

-- The test `x & flag` of C.
abbrev pub is_set : ℕ → ℕ → Bool
is_set x flag = not (bit_and x flag == 0)

-- The entries of a cluster table, up to the one that ends it.
unfoldable pub cluster_find : ℕ → ℕ → List ClusterEntry → Option ClusterEntry
cluster_find match mask [] = none
cluster_find match mask (c ∷ cs) =
    let rest = cluster_find match mask cs in
    if c.cluster_id == 0xffff
    then none
    else if c.cluster_id == match && is_set mask c.flags
    then some c
    else rest

unfoldable pub cluster_match : ℕ → ℕ → Option (List ClusterEntry) → Option ClusterEntry
unfolding cluster_find
cluster_match match mask none = none
cluster_match match mask (some cs) = cluster_find match mask cs

-- The first entry is not compared with the end of the table. A device without a table is [].
unfoldable pub endpoint_get_next : List EndpointEntry → Option ℕ → Option ℕ
endpoint_get_next es none = elim es [ [] ↦ none | e ∷ rest ↦ some 0 ]
endpoint_get_next es (some i) = elim (get_elem? es (i + 1)) [
  | none ↦ none
  | some e ↦ if e.endpoint == end_of_list then none else some (i + 1)
]

abbrev pub no_entry : EndpointEntry
no_entry = record {
  endpoint = end_of_list;
  profile_id = 0;
  handler = none;
  ep_state = none;
  device_id = 0;
  device_version = 0;
  cluster_table = none;
}

-- The test of `wpan_endpoint_match`.
abbrev pub is_match : ℕ → ℕ → EndpointEntry → Bool
is_match endpoint profile_id e =
    endpoint == e.endpoint && (profile_id == 0xffff || profile_id == e.profile_id)

-- The loop of `wpan_endpoint_match` and of `wpan_endpoint_of_cluster`, on fuel.
unfoldable pub first_from :
    List EndpointEntry → (EndpointEntry → Bool) → ℕ → Option ℕ → Option EndpointEntry
unfolding endpoint_get_next
first_from table test zero ep = none
first_from table test (suc n) ep = elim (endpoint_get_next table ep) [
  | none ↦ none
  | some i ↦
      let e = get_or table i no_entry in
      let rest = first_from table test n (some i) in if test e then some e else rest
]

unfoldable pub endpoint_match : List EndpointEntry → ℕ → ℕ → Option EndpointEntry
unfolding first_from
endpoint_match table endpoint profile_id =
    first_from table (is_match endpoint profile_id) (suc (length table)) none

unfoldable pub endpoint_of_envelope : List EndpointEntry → Option Envelope → Option EndpointEntry
unfolding endpoint_match
endpoint_of_envelope table none = none
endpoint_of_envelope table (some e) = endpoint_match table e.source_endpoint e.profile_id

-- The test of `wpan_endpoint_of_cluster`.
unfoldable pub has_cluster : ℕ → ℕ → ℕ → EndpointEntry → Bool
unfolding cluster_match
has_cluster profile_id cluster_id mask e =
    (profile_id == 0xffff || profile_id == e.profile_id)
    && elim (cluster_match cluster_id mask e.cluster_table) [ none ↦ false | some c ↦ true ]

unfoldable pub endpoint_of_cluster : List EndpointEntry → ℕ → ℕ → ℕ → Option EndpointEntry
unfolding first_from has_cluster
endpoint_of_cluster table profile_id cluster_id mask =
    first_from table (has_cluster profile_id cluster_id mask) (suc (length table)) none

-- What the handlers of clusters (with their context) and of endpoints (with their state) do with
-- an envelope, and `zcl_invalid_cluster`.
pub record Actions (World : Type 0) : Type 0 where
  pub on_cluster : ℕ → Envelope → ℕ → World → Ret × World
  pub on_endpoint : ℕ → Envelope → Option ℕ → World → Ret × World
  pub invalid_cluster : Envelope → World → Ret × World

-- Whether the cluster wants this envelope encrypted, which it is not.
unfoldable pub is_refused : Envelope → ClusterEntry → Bool
is_refused envelope c =
    not (is_set envelope.options rx_aps_encrypt)
    && not (is_set c.flags flag_not_zcl)
    && (is_set c.flags flag_encrypt
        || (is_set c.flags flag_encrypt_unicast && not (is_set envelope.options broadcast_addr)))

abbrev pub mark_cluster : Envelope → ClusterEntry → Envelope
mark_cluster envelope c = record envelope { options = bit_or envelope.options c.flags }

-- The envelope as the dispatch to the next endpoint of a broadcast starts with it.
abbrev pub readdress : Envelope → EndpointEntry → Envelope
readdress envelope e = record envelope {
  dest_endpoint = e.endpoint;
  options = bit_and envelope.options 0xff00;
}

-- A result, with the envelope as the callee has left it.
abbrev pub Outcome : Type 0 → Type 0
Outcome World = Ret × Envelope × World

-- What a broadcast returns after one more result.
abbrev pub merge : Ret → Ret → Ret
merge so_far (ret zero) = ret 0
merge so_far (ret (suc n)) = so_far
merge so_far (fail e) = so_far

module _ {World : Type 0} (act : Actions World) where
  -- The end of `_wpan_endpoint_dispatch`.
  abbrev pub by_endpoint : Envelope → EndpointEntry → World → Outcome World
  by_endpoint envelope e w = elim e.handler [
    | none ↦ (fail enoent, envelope, w)
    | some h ↦ let r = act.on_endpoint h envelope e.ep_state w in (r.0, envelope, r.1)
  ]

  -- With the cluster's entry.
  unfoldable pub by_cluster : Envelope → EndpointEntry → ClusterEntry → World → Outcome World
  unfolding is_refused
  by_cluster envelope e c w =
      if is_refused envelope c
      then (let r = act.invalid_cluster envelope w in (r.0, envelope, r.1))
      else elim c.handler [
        | none ↦ by_endpoint (mark_cluster envelope c) e w
        | some h ↦
            let r = act.on_cluster h (mark_cluster envelope c) c.context w in
            (r.0, mark_cluster envelope c, r.1)
      ]

  unfoldable pub endpoint_dispatch : Envelope → EndpointEntry → World → Outcome World
  unfolding cluster_match by_cluster
  endpoint_dispatch envelope e w =
      elim (cluster_match envelope.cluster_id flag_inout e.cluster_table) [
        | none ↦ by_endpoint envelope e w
        | some c ↦ by_cluster envelope e c w
      ]

  -- The loop of a broadcast, on fuel.
  unfoldable pub broadcast_from :
      List EndpointEntry → ℕ → Option ℕ → Ret → Envelope → World → Outcome World
  unfolding endpoint_get_next endpoint_dispatch
  broadcast_from table zero ep so_far envelope w = (so_far, envelope, w)
  broadcast_from table (suc n) ep so_far envelope w = elim (endpoint_get_next table ep) [
    | none ↦ (so_far, envelope, w)
    | some i ↦
        let e = get_or table i no_entry in
        let r = endpoint_dispatch (readdress envelope e) e w in
        if envelope.profile_id == e.profile_id
        then broadcast_from table n (some i) (merge so_far r.0) r.1 r.2
        else broadcast_from table n (some i) so_far envelope w
  ]

  unfoldable pub envelope_dispatch : List EndpointEntry → Envelope → World → Outcome World
  unfolding broadcast_from endpoint_match endpoint_dispatch
  envelope_dispatch table envelope w =
      if envelope.dest_endpoint == 0xff
      then broadcast_from table (suc (length table)) none (fail enoent)
          (record envelope { options = bit_or envelope.options broadcast_ep }) w
      else elim (endpoint_match table envelope.dest_endpoint envelope.profile_id) [
        | none ↦ (fail enoent, envelope, w)
        | some e ↦ endpoint_dispatch envelope e w
      ]

-- ===== src/Aps/Replies.antt =====
-- libraries/xbee_ansic_library/src/wpan/wpan_aps.c: envelopes that are made, answered and sent.
-- A pointer that may be null is an Option; an envelope is the only device's.
use xbeepocs.Base.{
  Bool, Bool-cases, List, Option, Ret, [], einval, fail, false, if◌then◌else◌, inl, inr, none, refl,
  ret, some, true, ℕ, ◌≡◌,
}
use xbeepocs.Aps.{Envelope}
use xbeepocs.Aps.Dispatch.{is_set, rx_aps_encrypt, flag_encrypt}

abbrev pub send_flag_encrypted : ℕ
send_flag_encrypted = 1

-- `wpan_envelope_create`; `ieee` is read only where there is an envelope.
unfoldable pub envelope_create : Option Envelope → List ℕ → ℕ → Option Envelope
envelope_create none ieee network_addr = none
envelope_create (some old) ieee network_addr = some (record {
  ieee_address = ieee;
  network_address = network_addr;
  profile_id = 0;
  cluster_id = 0;
  source_endpoint = 0;
  dest_endpoint = 0;
  options = 0;
  payload = [];
})

abbrev make_reply : Envelope → Envelope
make_reply e = record e {
  source_endpoint = e.dest_endpoint;
  dest_endpoint = e.source_endpoint;
  options = if is_set e.options rx_aps_encrypt then flag_encrypt else 0;
  payload = [];
}

-- `wpan_envelope_reply` on two pointers, which may be the `same`.
unfoldable pub envelope_reply : Bool → Option Envelope → Option Envelope → Ret × Option Envelope
envelope_reply same none original = (fail einval, none)
envelope_reply same (some reply) none = (fail einval, some reply)
envelope_reply same (some reply) (some e) =
    if same then (fail einval, some reply) else (ret 0, some (make_reply e))

-- `dev->endpoint_send`, or none.
abbrev pub Sender : Type 0 → Type 0
Sender World = Option (Envelope → ℕ → World → Ret × World)

unfoldable pub envelope_send :
    {World : Type 0} → Sender World → Option Envelope → World → Ret × World
envelope_send send none w = (fail einval, w)
envelope_send none (some e) w = (fail einval, w)
envelope_send (some send) (some e) w =
    send e (if is_set e.options flag_encrypt then send_flag_encrypted else 0) w

-- The reply to an envelope goes, by the device's function, back to the endpoint it came from, at
-- the same addresses, profile and cluster, without payload, and with APS encryption exactly if
-- the envelope came with it. The reply to the reply has the first envelope's endpoints again.
-- Without one of the envelopes, or onto itself, it is -EINVAL and changes nothing.
pub envelope_reply-send :
    {World : Type 0} (e old again : Envelope) (send : Envelope → ℕ → World → Ret × World)
    (w : World)
    → (reply : Envelope) × (second : Envelope) × (envelope_reply false (some old) (some e)
        ≡ (ret 0, some reply))
      × (envelope_send (some send) (some reply) w
          ≡ send reply (if is_set e.options rx_aps_encrypt then send_flag_encrypted else 0) w)
      × (reply.dest_endpoint ≡ e.source_endpoint)
      × (record reply { source_endpoint = 0; dest_endpoint = 0; options = 0 }
          ≡ record e { source_endpoint = 0; dest_endpoint = 0; options = 0; payload = [] })
      × (envelope_reply false (some again) (some reply) ≡ (ret 0, some second))
      × (second ≡ record e { options = 0; payload = [] })
      × (envelope_reply true (some e) (some e) ≡ (fail einval, some e))
      × (envelope_reply false (some old) none ≡ (fail einval, some old))
      × (envelope_reply false none (some e) ≡ (fail einval, none))
unfolding envelope_reply envelope_send
envelope_reply-send e old again send w = elim (Bool-cases (is_set e.options rx_aps_encrypt)) [
  | inl came ↦ (
    make_reply e,
    make_reply (make_reply e),
    refl,
    rw came refl,
    refl,
    refl,
    refl,
    rw came refl,
    refl,
    refl,
    refl,
  )
  | inr plain ↦ (
    make_reply e,
    make_reply (make_reply e),
    refl,
    rw plain refl,
    refl,
    refl,
    refl,
    rw plain refl,
    refl,
    refl,
    refl,
  )
]

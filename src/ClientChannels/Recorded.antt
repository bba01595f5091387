-- ===== src/ClientChannels/Recorded.antt =====
-- What is recorded of a client's channels after a request (src/ros1_foxglove_bridge.cpp), as a
-- function of what was recorded before.
use foxglove_bridge_ros.Prelude.{
  ℕ, ◌≡◌, String, Bool, Option, none, some, lookup, ◌==◌, nat_eq, bool_eq, string_eq, if◌then◌else◌,
  arith, lookup-emplace, lookup-remove, Option-cases, inl, inr,
}
use foxglove_bridge_ros.Prelude.Int.{ℤ}
use foxglove_bridge_ros.ClientChannels.{
  ClientChannelKey, key_eq, key_beq_iff, ClientChannelInfo, MessageDescription, AdvertiseOptions,
  ClientAdvertisement, ClientState, key_of, options_for, advertisement_for, advertise_with,
  on_client_advertise, on_client_unadvertise, gateway_call,
}

abbrev pub first {ℓ} : {A : Type ℓ} → Option A → Option A → Option A
first none o = o
first (some a) o = some a

module _ {Publisher : Type 0} (describe : String → Option MessageDescription)
    (ros_advertise : AdvertiseOptions → Option Publisher) (queue_length : ℤ) where
  offer_with :
      ClientChannelInfo → Option MessageDescription → Option (ClientAdvertisement Publisher)
  offer_with info none = none
  offer_with info (some d) =
      elim (ros_advertise (options_for describe ros_advertise queue_length info d)) [
        | none ↦ none
        | some p ↦ some (advertisement_for describe ros_advertise queue_length info d p)
      ]

  -- What an advertisement is good for, whoever sends it.
  pub offer : ClientChannelInfo → Option (ClientAdvertisement Publisher)
  unfolding offer_with
  offer info = if info.encoding == "ros1" then offer_with info (describe info.schema_name) else none

  pub lookup-advertised :
      (s : ClientState Publisher) (info : ClientChannelInfo) (client : ℕ) (gw : Bool)
      (key : ClientChannelKey)
      → lookup key
          (gateway_call s
            (on_client_advertise describe ros_advertise queue_length s info client gw)).advertised
        ≡ (if key_of info.id client gw == key
            then first (lookup key s.advertised) (offer info)
            else lookup key s.advertised)
  unfolding on_client_advertise advertise_with offer offer_with
  lookup-advertised s info client gw key =
      let own = key_of info.id client gw in
      elim (Option-cases (describe info.schema_name)) [
        | inl e ↦ ground (arith, e, key_beq_iff own key)
        | inr (d, e) ↦
            let made = ros_advertise (options_for describe ros_advertise queue_length info d) in
            elim (Option-cases made) [
              | inl f ↦ ground (arith, e, f, key_beq_iff own key)
              | inr (p, f) ↦ ground (
                arith,
                e,
                f,
                key_beq_iff own key,
                lookup-emplace own key
                    (advertisement_for describe ros_advertise queue_length info d p) s.advertised,
              )
            ]
      ]

pub lookup-unadvertised :
    {Publisher : Type 0} (s : ClientState Publisher) (channel client : ℕ) (gw : Bool)
    (key : ClientChannelKey)
    → lookup key (gateway_call s (on_client_unadvertise s channel client gw)).advertised
      ≡ (if key_of channel client gw == key then none else lookup key s.advertised)
unfolding on_client_unadvertise
lookup-unadvertised s channel client gw key =
    let own = key_of channel client gw in
    ground (arith, key_beq_iff own key, lookup-remove own key s.advertised)

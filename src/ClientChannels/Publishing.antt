-- ===== src/ClientChannels/Publishing.antt =====
-- What a client's advertisement is good for (src/ros1_foxglove_bridge.cpp).
use foxglove_bridge_ros.Prelude.{
  ℕ, ◌^◌, ◌<◌, ◌≡◌, ap, refl, ◌↔◌, String, Bool, true, Option, none, some, List, [], ◌∷◌, lookup,
  emplace, length, ◌==◌, nat_eq, bool_eq, string_eq, if◌then◌else◌, arith, lookup-emplace,
  lookup-remove, Option-cases, Bool-cases, inl, inr,
}
use foxglove_bridge_ros.Prelude.Int.{ℤ}
use native.Mathlib.Nat.{mod-eq_of_lt}
use text.Mathlib.TextEquality.{eq_iff}
use foxglove_bridge_ros.ClientChannels.{
  ClientChannelKey, key_eq, key_beq_iff, ClientChannelInfo, MessageDescription, AdvertiseOptions,
  ok, throws, unknown_unadvertised, unknown_message, ClientState, key_of, take, read_stream,
  options_for, advertisement_for, advertise_with, on_client_advertise, on_client_unadvertise,
  on_client_message,
}

take_all : (xs : List ℕ) → take (length xs) xs ≡ xs
take_all [] = refl
take_all (x ∷ xs) = ap (◌∷◌ x) (take_all xs)

read_stream_all : (bytes : List ℕ) → length bytes < 2 ^ 32 → read_stream bytes ≡ bytes
unfolding read_stream
read_stream_all bytes h = rw (mod-eq_of_lt h) (take_all bytes)

module _ {Publisher : Type 0} (describe : String → Option MessageDescription)
    (ros_advertise : AdvertiseOptions → Option Publisher) (queue_length : ℤ) where
  -- The description and the publisher of a channel are to be had, and this is the new state.
  abbrev pub Records :
      ClientState Publisher → ClientState Publisher → ClientChannelInfo → ℕ → Bool → Type 0
  Records s t channel client gw =
      (d : MessageDescription) × (p : Publisher) × (describe channel.schema_name ≡ some d)
      × (ros_advertise (options_for describe ros_advertise queue_length channel d) ≡ some p)
      × (t ≡ record {
        advertised =
            emplace (key_of channel.id client gw)
              (advertisement_for describe ros_advertise queue_length channel d p) s.advertised;
        poll_poke = true;
      })

  advertise_with-Records :
      (s t : ClientState Publisher) (channel : ClientChannelInfo) (client : ℕ) (gw : Bool)
      (o : Option MessageDescription)
      → describe channel.schema_name ≡ o
      → advertise_with describe ros_advertise queue_length s (key_of channel.id client gw) channel o
        ≡ ok t
      → Records s t channel client gw
  unfolding advertise_with
  advertise_with-Records s t channel client gw none f e = absurd (cc)
  advertise_with-Records s t channel client gw (some d) f e =
      elim (Option-cases
        (ros_advertise (options_for describe ros_advertise queue_length channel d))) [
          | inl g ↦ absurd (ground arith)
          | inr (p, g) ↦ (d, p, f, g, ground arith)
        ]

  accepted :
      (s t : ClientState Publisher) (channel : ClientChannelInfo) (client : ℕ) (gw : Bool)
      → on_client_advertise describe ros_advertise queue_length s channel client gw ≡ ok t
      → (channel.encoding ≡ "ros1")
        × (lookup (key_of channel.id client gw) s.advertised ≡ none)
        × Records s t channel client gw
  unfolding on_client_advertise
  accepted s t channel client gw e = elim (Bool-cases (channel.encoding == "ros1")) [
    | inr wrong ↦ absurd (ground arith)
    | inl right ↦ elim (Option-cases (lookup (key_of channel.id client gw) s.advertised)) [
      | inr (ad, there) ↦ absurd (ground arith)
      | inl absent ↦ (
        (eq_iff channel.encoding "ros1").0 right,
        absent,
        advertise_with-Records s t channel client gw _ refl (ground arith),
      )
    ]
  ]

  -- An advertisement is accepted exactly when the encoding is ros1, the client has not advertised
  -- the channel yet on the same transport, the type is known and ROS gives a publisher for it. Then
  -- the channel is recorded with that type and publisher, and the poll thread is woken.
  pub on_client_advertise_ok_iff :
      (s t : ClientState Publisher) (channel : ClientChannelInfo) (client : ℕ) (gw : Bool)
      → (on_client_advertise describe ros_advertise queue_length s channel client gw ≡ ok t) ↔ (
          (channel.encoding ≡ "ros1")
          × (lookup (key_of channel.id client gw) s.advertised ≡ none)
          × Records s t channel client gw)
  unfolding on_client_advertise advertise_with
  on_client_advertise_ok_iff s t channel client gw = (
    accepted s t channel client gw,
    λ (encoding, absent, r).
        let (d, p, described, made, new) = r in ground (arith, eq_iff channel.encoding "ros1"),
  )

  -- A message of less than 2^32 bytes on a channel that its client has just advertised is
  -- published on the publisher that ROS gave for the channel, with the advertised type and all
  -- its bytes.
  pub on_client_message-on_client_advertise :
      (s t : ClientState Publisher) (channel : ClientChannelInfo) (client : ℕ) (gw : Bool)
      (bytes : List ℕ)
      → on_client_advertise describe ros_advertise queue_length s channel client gw ≡ ok t
      → length bytes < 2 ^ 32
      → (d : MessageDescription) × (p : Publisher) × (describe channel.schema_name ≡ some d)
        × (ros_advertise (options_for describe ros_advertise queue_length channel d) ≡ some p)
        × (on_client_message t channel.id client gw bytes
            ≡ ok (
              p,
              record {
                md5sum = d.md5;
                datatype = channel.schema_name;
                message_definition = d.message_definition;
                content = bytes;
              },
            ))
  unfolding on_client_message
  on_client_message-on_client_advertise s t channel client gw bytes e h =
      let (encoding, absent, r) = accepted s t channel client gw e in
      let (d, p, described, made, new) = r in
      let key = key_of channel.id client gw in
      let ad = advertisement_for describe ros_advertise queue_length channel d p in
      (
        d,
        p,
        described,
        made,
        ground (
          arith,
          lookup-emplace key key ad s.advertised,
          key_beq_iff key key,
          read_stream_all bytes h,
        ),
      )

  -- An advertisement changes what is advertised under its own key alone: not the same ids on the
  -- other transport, nor any other channel or client.
  pub lookup-on_client_advertise :
      (s t : ClientState Publisher) (channel : ClientChannelInfo) (client : ℕ) (gw : Bool)
      (key : ClientChannelKey)
      → on_client_advertise describe ros_advertise queue_length s channel client gw ≡ ok t
      → ¬ (key_of channel.id client gw ≡ key)
      → lookup key t.advertised ≡ lookup key s.advertised
  lookup-on_client_advertise s t channel client gw key e other =
      let (encoding, absent, r) = accepted s t channel client gw e in
      let (d, p, described, made, new) = r in
      let own = key_of channel.id client gw in
      ground (
        arith,
        lookup-emplace own key (advertisement_for describe ros_advertise queue_length channel d p)
            s.advertised,
        key_beq_iff own key,
      )

module _ {Publisher : Type 0} where
  -- Once a client takes a channel back, its messages on the channel and a second unadvertisement
  -- are refused, and every other channel stays as it was.
  pub on_client_unadvertise_forgets :
      (s t : ClientState Publisher) (channel client : ℕ) (gw : Bool) (bytes : List ℕ)
      (key : ClientChannelKey)
      → on_client_unadvertise s channel client gw ≡ ok t
      → (on_client_message t channel client gw bytes ≡ throws unknown_message)
        × (on_client_unadvertise t channel client gw ≡ throws unknown_unadvertised)
        × (lookup key t.advertised
            ≡ (if key_of channel client gw == key then none else lookup key s.advertised))
  unfolding on_client_unadvertise on_client_message
  on_client_unadvertise_forgets s t channel client gw bytes key e =
      let own = key_of channel client gw in
      let gone = lookup-remove own own s.advertised in
      let self = key_beq_iff own own in
      (
        ground (arith, gone, self),
        ground (arith, gone, self),
        ground (arith, lookup-remove own key s.advertised, key_beq_iff own key),
      )

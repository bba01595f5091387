-- ===== src/ClientChannels.antt =====
-- Client publishing in src/ros1_foxglove_bridge.cpp: `onClientAdvertise`, `onClientUnadvertise`
-- and `onClientMessage` over the map `_clientAdvertisedTopics`, and the gateway's wrappers of
-- src/transport_manager.cpp. The description provider and `NodeHandle::advertise` are arguments.
pub mod Publishing
pub mod Recorded
use foxglove_bridge_ros.Prelude.{
  ◌-◌, ℕ, zero, suc, ◌%◌, ◌^◌, ◌≡◌, ◌↔◌, String, Bool, true, false, not, ◌&&◌, Option, none, some,
  List, [], ◌∷◌, lookup, emplace, remove, is_some, length, Eq, ◌==◌, nat_eq, bool_eq, string_eq,
  if◌then◌else◌, nat_beq, bool_beq, nat_beq_iff, bool_beq_iff, arith,
}
use foxglove_bridge_ros.Prelude.Int.{ℤ, pos, negsuc}

-- `ClientChannelKey`: ids are unique within a transport only.
pub record ClientChannelKey : Type 0 where
  pub channel_id : ℕ
  pub client_id : ℕ
  pub is_gateway : Bool

-- Its `operator==`.
abbrev pub key_beq : ClientChannelKey → ClientChannelKey → Bool
key_beq a b =
    nat_beq a.channel_id b.channel_id
    && (nat_beq a.client_id b.client_id && bool_beq a.is_gateway b.is_gateway)

pub key_beq_iff : (a b : ClientChannelKey) → (key_beq a b ≡ true) ↔ (a ≡ b)
key_beq_iff a b = ground (
  arith,
  nat_beq_iff a.channel_id b.channel_id,
  nat_beq_iff a.client_id b.client_id,
  bool_beq_iff a.is_gateway b.is_gateway,
)

instance abbrev pub key_eq : Eq ClientChannelKey
key_eq = record { beq = key_beq; beq_iff = key_beq_iff }

pub record ClientChannelInfo : Type 0 where
  pub id : ℕ
  pub topic : String
  pub encoding : String
  pub schema_name : String

pub record MessageDescription : Type 0 where
  pub md5 : String
  pub message_definition : String

pub record ClientAdvertisement (Publisher : Type 0) : Type 0 where
  pub publisher : Publisher
  pub topic_name : String
  pub topic_type : String
  pub md5sum : String
  pub message_definition : String

pub record AdvertiseOptions : Type 0 where
  pub datatype : String
  pub has_header : Bool
  pub latch : Bool
  pub md5sum : String
  pub message_definition : String
  pub queue_size : ℕ
  pub topic : String

-- What is published: the type that `morph` sets, and the bytes that `read` takes.
pub record ShapeShifter : Type 0 where
  pub md5sum : String
  pub datatype : String
  pub message_definition : String
  pub content : List ℕ

-- The messages of `ClientChannelError`.
pub data ClientChannelError : Type 0 where
  unsupported_encoding already_advertised no_type_information no_publisher : ClientChannelError
  unknown_unadvertised unknown_message : ClientChannelError

pub data Result {ℓ} (A : Type ℓ) : Type ℓ where
  ok : A → Result A
  throws : ClientChannelError → Result A

pub record ClientState (Publisher : Type 0) : Type 0 where
  pub advertised : List (ClientChannelKey × ClientAdvertisement Publisher)
  pub poll_poke : Bool

abbrev pub key_of : ℕ → ℕ → Bool → ClientChannelKey
key_of channel client is_gateway = record {
  channel_id = channel;
  client_id = client;
  is_gateway = is_gateway;
}

-- `static_cast<uint32_t>(dataLen)` bytes of the message are read.
abbrev pub take : ℕ → List ℕ → List ℕ
take zero xs = []
take (suc n) [] = []
take (suc n) (x ∷ xs) = x ∷ take n xs

unfoldable pub read_stream : List ℕ → List ℕ
read_stream bytes = take (length bytes % 2 ^ 32) bytes

-- `static_cast<uint32_t>` of an int.
abbrev pub to_uint32 : ℤ → ℕ
to_uint32 (pos n) = n % 2 ^ 32
to_uint32 (negsuc n) = 2 ^ 32 - 1 - n % 2 ^ 32

module _ {Publisher : Type 0} (describe : String → Option MessageDescription)
    (ros_advertise : AdvertiseOptions → Option Publisher) (queue_length : ℤ) where
  abbrev pub options_for : ClientChannelInfo → MessageDescription → AdvertiseOptions
  options_for channel d = record {
    datatype = channel.schema_name;
    has_header = false;
    latch = false;
    md5sum = d.md5;
    message_definition = d.message_definition;
    queue_size = to_uint32 queue_length;
    topic = channel.topic;
  }

  abbrev pub advertisement_for :
      ClientChannelInfo → MessageDescription → Publisher → ClientAdvertisement Publisher
  advertisement_for channel d p = record {
    publisher = p;
    topic_name = channel.topic;
    topic_type = channel.schema_name;
    md5sum = d.md5;
    message_definition = d.message_definition;
  }

  -- The part of `onClientAdvertise` behind the lookup of the description.
  unfoldable pub advertise_with :
      ClientState Publisher
      → ClientChannelKey
      → ClientChannelInfo
      → Option MessageDescription
      → Result (ClientState Publisher)
  advertise_with s key channel none = throws no_type_information
  advertise_with s key channel (some d) = elim (ros_advertise (options_for channel d)) [
    | none ↦ throws no_publisher
    | some p ↦ ok (record {
      advertised = emplace key (advertisement_for channel d p) s.advertised;
      poll_poke = true;
    })
  ]

  unfoldable pub on_client_advertise :
      ClientState Publisher → ClientChannelInfo → ℕ → Bool → Result (ClientState Publisher)
  unfolding advertise_with
  on_client_advertise s channel client is_gateway =
      let key = key_of channel.id client is_gateway in
      if not (channel.encoding == "ros1")
      then throws unsupported_encoding
      else if is_some (lookup key s.advertised)
      then throws already_advertised
      else advertise_with s key channel (describe channel.schema_name)

module _ {Publisher : Type 0} where
  unfoldable pub on_client_unadvertise :
      ClientState Publisher → ℕ → ℕ → Bool → Result (ClientState Publisher)
  on_client_unadvertise s channel client is_gateway =
      let key = key_of channel client is_gateway in
      if is_some (lookup key s.advertised)
      then ok (record s { advertised = remove key s.advertised })
      else throws unknown_unadvertised

  -- What is published, and on which publisher.
  unfoldable pub on_client_message :
      ClientState Publisher → ℕ → ℕ → Bool → List ℕ → Result (Publisher × ShapeShifter)
  unfolding read_stream
  on_client_message s channel client is_gateway bytes =
      elim (lookup (key_of channel client is_gateway) s.advertised) [
        | none ↦ throws unknown_message
        | some ad ↦ ok (
          ad.publisher,
          record {
            md5sum = ad.md5sum;
            datatype = ad.topic_type;
            message_definition = ad.message_definition;
            content = read_stream bytes;
          },
        )
      ]

  -- The gateway's callbacks catch the exception and log it.
  abbrev pub gateway_call :
      ClientState Publisher → Result (ClientState Publisher) → ClientState Publisher
  gateway_call s (ok s') = s'
  gateway_call s (throws e) = s

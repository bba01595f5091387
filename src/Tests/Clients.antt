-- ===== src/Tests/Clients.antt =====
-- Client publishing at concrete inputs.
use foxglove_bridge_ros.Prelude.{
  ◌↔◌, String, ◌≡◌, refl, true, false, Option, none, some, [], ◌∷◌, lookup, emplace, remove,
  if◌then◌else◌, ◌==◌, nat_eq, string_eq, pair_eq, arith,
}
use foxglove_bridge_ros.Prelude.Int.{pos}
use foxglove_bridge_ros.ClientChannels.{
  key_eq, options_for, key_of, ClientChannelInfo, MessageDescription, AdvertiseOptions, ClientState,
  ok, on_client_advertise, on_client_unadvertise, on_client_message,
}
use foxglove_bridge_ros.ClientChannels.Publishing.{
  Records, on_client_advertise_ok_iff, on_client_message-on_client_advertise,
}

abbrev twist : MessageDescription
twist = record { md5 = "9f1"; message_definition = "Vector3 linear" }

abbrev pub describe : String → Option MessageDescription
describe type = if type == "geometry_msgs/Twist" then some twist else none

-- A publisher is its topic.
abbrev pub ros_advertise : AdvertiseOptions → Option String
ros_advertise options = some options.topic

abbrev channel : ClientChannelInfo
channel = record {
  id = 3;
  topic = "/cmd_vel";
  encoding = "ros1";
  schema_name = "geometry_msgs/Twist";
}

abbrev empty : ClientState String
empty = record { advertised = []; poll_poke = false }

abbrev advertised : ClientState String
advertised = record {
  advertised =
      (
        key_of 3 5 false,
        record {
          publisher = "/cmd_vel";
          topic_name = "/cmd_vel";
          topic_type = "geometry_msgs/Twist";
          md5sum = "9f1";
          message_definition = "Vector3 linear";
        },
      )
      ∷ [];
  poll_poke = true;
}

accepts : on_client_advertise describe ros_advertise (pos 10) empty channel 5 false ≡ ok advertised
unfolding on_client_advertise lookup emplace
accepts = refl

on_client_advertise_ok_iff_example :
    (on_client_advertise describe ros_advertise (pos 10) empty channel 5 false ≡ ok advertised) ↔ (
      (channel.encoding ≡ "ros1")
      × (lookup (key_of 3 5 false) empty.advertised ≡ none)
      × Records describe ros_advertise (pos 10) empty advertised channel 5 false)
on_client_advertise_ok_iff_example =
    on_client_advertise_ok_iff describe ros_advertise (pos 10) empty advertised channel 5 false

on_client_message-on_client_advertise_example :
    (d : MessageDescription) × (p : String) × (describe "geometry_msgs/Twist" ≡ some d)
    × (ros_advertise (options_for describe ros_advertise (pos 10) channel d) ≡ some p)
    × (on_client_message advertised 3 5 false (1 ∷ 2 ∷ [])
        ≡ ok (
          p,
          record {
            md5sum = d.md5;
            datatype = "geometry_msgs/Twist";
            message_definition = d.message_definition;
            content = 1 ∷ 2 ∷ [];
          },
        ))
on_client_message-on_client_advertise_example =
    on_client_message-on_client_advertise describe ros_advertise (pos 10) empty advertised channel 5
      false (1 ∷ 2 ∷ []) accepts (omega arith)

abbrev taken : ClientState String
taken = record { advertised = []; poll_poke = true }

takes_back : on_client_unadvertise advertised 3 5 false ≡ ok taken
unfolding on_client_unadvertise lookup remove
takes_back = refl

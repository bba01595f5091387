-- ===== src/Requests.antt =====
-- The bridge as its clients meet it: a request of a client of either transport, by the callbacks of
-- src/transport_manager.cpp, to the functions of src/ros1_foxglove_bridge.cpp, on the state that
-- they share.
pub mod Separate
pub mod Spared
pub mod Mixed
pub mod Queued
pub mod Registers
use foxglove_bridge_ros.Prelude.{
  ℕ, String, Bool, true, false, Option, none, some, List, [], ◌∷◌, ◌++◌, map,
}
use foxglove_bridge_ros.Prelude.Int.{ℤ}
use foxglove_bridge_ros.Utils.{RegexEngine}
use foxglove_bridge_ros.Capabilities.{Capability, GatewayCapability, FlagSet}
use foxglove_bridge_ros.Channels.{ChannelState, Effect, on_subscribe, on_unsubscribe}
use foxglove_bridge_ros.ClientChannels.{
  ClientChannelKey, ClientAdvertisement, MessageDescription, AdvertiseOptions, ShapeShifter,
  ClientChannelError, Result, ok, throws, ClientState, ClientChannelInfo, on_client_advertise,
  on_client_unadvertise, on_client_message,
}
use foxglove_bridge_ros.Poll.Backoff.{PollState, on_connection_graph_subscribe}
use foxglove_bridge_ros.Options.{Checked}
use foxglove_bridge_ros.Descriptions.{get_message_description}
use foxglove_bridge_ros.Assets.{Bytes, AssetResponse, fetch_asset}
use foxglove_bridge_ros.Params.Worker.{Manager, enqueue_parameter_op}
use foxglove_bridge_ros.Startup.{Platform}
use foxglove_bridge_ros.Startup.Wiring.{
  ServerRequest, GatewayRequest, DelegateCall, server_call, gateway_call, gateway_answer,
}

-- What the bridge's functions use of the rest of the system.
pub record Host (Publisher : Type 0) (engine : RegexEngine Bytes) : Type 0 where
  pub message_description : String → Checked MessageDescription
  -- `NodeHandle::advertise`, given what the node has advertised.
  pub ros_advertise : List Publisher → AdvertiseOptions → Option Publisher
  pub queue_length : ℤ
  pub bytes_of : String → Bytes
  pub asset_uri_allowlist : List engine.Regex
  pub retrieve : Bytes → Option Bytes

abbrev pub describe :
    {Publisher : Type 0} {engine : RegexEngine Bytes}
    → Host Publisher engine
    → String
    → Option MessageDescription
describe host = get_message_description host.message_description

-- What goes out: to ROS and to the clients of a channel, on a client's publisher, or as the answer
-- to a request for an asset.
pub data Output (Publisher : Type 0) : Type 0 where
  channel_effect : Effect → Output Publisher
  published : Publisher → ShapeShifter → Output Publisher
  asset : ℕ → AssetResponse → Output Publisher

pub record BridgeState (S P Publisher : Type 0) : Type 0 where
  pub channels : ChannelState
  pub advertised : List (ClientChannelKey × ClientAdvertisement Publisher)
  pub poll : PollState
  pub manager : Manager S P
  pub outputs : List (Output Publisher)

abbrev pub Answered : Type 0 → Type 0 → Type 0 → Type 0
Answered S P Publisher = BridgeState S P Publisher × Option ClientChannelError

-- A request of the WebSocket server, or of the gateway, which is `true`.
abbrev pub RequestOf : Type 0 → Bool → Type 0
RequestOf P false = ServerRequest P
RequestOf P true = GatewayRequest P

module _ {S P Publisher : Type 0} where
  -- The part of the state that client publishing works on.
  abbrev pub client_state : BridgeState S P Publisher → ClientState Publisher
  client_state b = record { advertised = b.advertised; poll_poke = b.poll.poll_poke }

  abbrev pub with_channels :
      BridgeState S P Publisher → ChannelState × List Effect → BridgeState S P Publisher
  with_channels b (channels, effects) = record b {
    channels = channels;
    outputs = b.outputs ++ map channel_effect effects;
  }

  -- An exception leaves the state as it was.
  abbrev pub with_clients :
      BridgeState S P Publisher → Result (ClientState Publisher) → Answered S P Publisher
  with_clients b (ok c) = (
    record b { advertised = c.advertised; poll = record b.poll { poll_poke = c.poll_poke } },
    none,
  )
  with_clients b (throws error) = (b, some error)

  abbrev pub with_message :
      BridgeState S P Publisher → Result (Publisher × ShapeShifter) → Answered S P Publisher
  with_message b (ok (publisher, message)) =
      (record b { outputs = b.outputs ++ published publisher message ∷ [] }, none)
  with_message b (throws error) = (b, some error)

-- What roscpp answers to an advertisement depends on those that the node has.
abbrev pub advertise_now :
    {S P Publisher : Type 0} {engine : RegexEngine Bytes}
    → Host Publisher engine
    → BridgeState S P Publisher
    → AdvertiseOptions
    → Option Publisher
advertise_now host b = host.ros_advertise (map (λ entry. entry.1.publisher) b.advertised)

module _ {S P Publisher : Type 0} {engine : RegexEngine Bytes} (host : Host Publisher engine) where
  -- The functions of `BridgeDelegate`, as `Ros1FoxgloveBridge` has them, and the queue.
  unfoldable pub delegate : DelegateCall P → BridgeState S P Publisher → Answered S P Publisher
  delegate DelegateCall.on_client_connect b = (b, none)
  delegate DelegateCall.on_client_disconnect b = (b, none)
  delegate (DelegateCall.on_connection_graph_subscribe subscribes) b =
      (record b { poll = on_connection_graph_subscribe subscribes b.poll }, none)
  delegate (DelegateCall.on_subscribe channel client is_gateway sink) b =
      (with_channels b (on_subscribe b.channels channel client is_gateway sink), none)
  delegate (DelegateCall.on_unsubscribe channel client is_gateway) b =
      (with_channels b (on_unsubscribe b.channels channel client is_gateway), none)
  delegate (DelegateCall.on_client_advertise channel client is_gateway) b = with_clients b (
      on_client_advertise (describe host) (advertise_now host b) host.queue_length (client_state b)
        channel client is_gateway)
  delegate (DelegateCall.on_client_unadvertise channel client is_gateway) b =
      with_clients b (on_client_unadvertise (client_state b) channel client is_gateway)
  delegate (DelegateCall.on_client_message channel client is_gateway data') b =
      with_message b (on_client_message (client_state b) channel client is_gateway data')
  delegate (DelegateCall.fetch_asset uri responder) b =
      let response =
        fetch_asset engine host.retrieve host.asset_uri_allowlist (host.bytes_of uri) in
      (record b { outputs = b.outputs ++ asset responder response ∷ [] }, none)
  delegate (DelegateCall.enqueue_parameter_op op) b =
      (record b { manager = enqueue_parameter_op b.manager op }, none)

  abbrev pub perform : Option (DelegateCall P) → BridgeState S P Publisher → Answered S P Publisher
  perform none b = (b, none)
  perform (some call) b = delegate call b

  -- A request of either transport, with the capabilities that were configured.
  module _ (ws : FlagSet Capability) (gw : FlagSet GatewayCapability)
      (platform : Platform ws.Flags gw.Flags) (capabilities : ws.Flags) (backend reports : Bool)
      (session_sink : Option ℕ) where
    unfoldable pub serve :
        (t : Bool) → RequestOf P t → BridgeState S P Publisher → Answered S P Publisher
    unfolding delegate
    serve false request b =
        perform (server_call ws gw platform capabilities backend reports request) b
    serve true request b =
        gateway_answer delegate request
          (gateway_call ws gw platform capabilities backend session_sink request) b

    -- Requests of both transports, as they come.
    abbrev pub serve_all :
        List ((t : Bool) × RequestOf P t) → BridgeState S P Publisher → BridgeState S P Publisher
    serve_all [] b = b
    serve_all ((t, request) ∷ requests) b = serve_all requests (serve t request b).0

-- ===== src/Lib.antt =====
-- foxglove_bridge for ROS 1: a model of the bridge between ROS topics, services and parameters and
-- Foxglove clients, which reach it through a WebSocket server or a remote access gateway.
--
-- The parts, and how they meet:
--   Poll            the poll thread of src/ros1_foxglove_bridge.cpp. `Poll.Cycle.poll_once` is the
--                   `try` block of `pollThread`: it asks the master for topics and, where someone
--                   needs it, for the system's state, and hands the replies to the updates of
--                   `Channels.Discovery` and `Services.Advertised`. `Poll.Backoff` is how long the
--                   thread waits, the pokes that cut the wait short, and
--                   `onConnectionGraphSubscribe`. `Poll.Wakeup` is the loop around them as steps of
--                   its thread, between those of `pokePoll` and of the destructor.
--                   `Poll.Timing` is its rounds by the clock, with the sweeps of `Services.Calls`.
--   Channels        the maps `_channels`, `_subscriptions` and `_latchedChannels`: `onSubscribe`,
--                   `onUnsubscribe`, `rosMessageHandler`, and `updateAdvertisedTopics` in
--                   `Channels.Discovery`; the policies for remote access in `Channels.Qos`.
--                   `Channels.Session` is the callbacks and the update as events, in any order,
--                   where the poll thread's update is three events, one for each time that it holds
--                   its mutex or does without, and a subscriber that `onUnsubscribe` has moved out of
--                   the map is destroyed by an event of its own.
--   Services        `updateAdvertisedServices` in `Services.Advertised`; `handleServiceRequest`, its
--                   workers and `sweepExpiredServiceCalls` in `Services.Calls`;
--                   `retrieveServiceType` of src/service_utils.cpp in `Services.Probe`;
--                   `GenericService` of include/foxglove_bridge/generic_service.hpp on the wire in
--                   `Services.Wire`. `Services.Published` joins the updates with `Transports`.
--   ClientChannels  `onClientAdvertise`, `onClientUnadvertise`, `onClientMessage`.
--   Assets          `percentDecode` and `fetchAsset`.
--   Params          `Params.Worker` is the queue and the worker of src/transport_manager.cpp;
--                   `Params.Interface` is its backend, `Ros1ParameterInterface` of
--                   src/param_interface.cpp, and `Params.Values` the conversion of values.
--   Options         what the constructor of `Ros1FoxgloveBridge` reads from the node's parameters.
--   Startup         the constructor of `TransportManager` and `createGateway`, on those options;
--                   `Startup.Wiring` is the callbacks that they set on the two transports.
--   Requests        a request of a client of either transport, through the callbacks of
--                   `Startup.Wiring`, to the functions of Channels, ClientChannels, Poll, Assets and
--                   Params on one state. `Requests.Registers` follows the requests for parameters to
--                   the master, with `Params.Registered` for the worker over its backend.
--   Transports      `addService` and `removeService` of src/transport_manager.cpp, and what is
--                   published on both transports.
--   Lifetime        the order in which the constructors and destructors of `Ros1FoxgloveBridge`,
--                   `TransportManager` and `Ros1ParameterInterface` start and stop their threads.
--   Locks           the mutexes that each operation takes, as programs of threads: `Locks` is the
--                   threads and their steps, `Locks.Bridge` the operations of the bridge, and
--                   `Locks.Bridge.Ending` the threads that its end waits for.
--   Descriptions    `getMessageDescription` and `getServiceDescription`.
--   Logging         `Logger` of include/foxglove_bridge/logging.hpp.
--   Capabilities    src/capabilities.cpp.
--   Utils           include/foxglove_bridge/utils.hpp and `parseRegexPatterns`.
--   Prelude         lists, maps, integers and tests that all parts share.
--   Tests           the theorems at concrete inputs.
--
-- Conventions. A class is a record of the fields that the modelled operations use; a method is a
-- function from state to state, and what it does outside the bridge is returned as a value: a list of
-- effects, of answers or of responses. An exception is `none`, `throws` or a false flag. Threads that
-- share state are steps, one for each lock that is taken, in any order: `Services.Calls.Once.Step`,
-- `Params.Worker.Answers.Action`, `Poll.Wakeup.Step`, `Channels.Session.Event`,
-- `Services.Probe.Event` and `Requests.Registers.Event`; in `Locks` a schedule says which thread
-- steps next. Maps and sets are lists whose order the theorems leave open.
-- Every loop is recursion on a list, so no fuel is used. Integers of a fixed width keep their
-- wrap-around where a value can reach it: `to_int32`, `read_stream`, `before_wait`,
-- `saturating_to_size_t`, `to_uint32`, `port_of`, `quantization_of` and `data_track_of`. Refcounts
-- and ids do not wrap.
--
-- What is not code of the repository is a parameter: the regular expressions (`RegexEngine`), the
-- SDK's flags, channels and parameters (`FlagSet`, `ChannelRegistry`, `ParameterClass`), the ROS
-- master (`Master`, with the resolution of names, and `Registry` for the registrations that its API
-- promises, under the resolved names), the description
-- provider, the resource retriever, the node's parameters (`NodeHandle`), the environment, the file
-- system and the SDK's constructors (`Platform`), the mutexes that the calls of the SDK and of
-- roscpp take (`Calls`, with `CallsNest` for the order that the bridge relies on), and `vsnprintf`
-- (`Formatting`). Service discovery takes the probe of `Services.Probe` as any function.
--
-- Not modelled: log levels and the texts of log lines; what the SDK and roscpp do inside; in `Locks`
-- the waits other than for a mutex or the end of a thread, which are in `Poll.Wakeup` and `Params.Worker`; the hash
-- functions of the maps' keys, on which nothing but the order of the maps depends; and the entry
-- point.
pub mod Assets
pub mod Capabilities
pub mod Channels
pub mod ClientChannels
pub mod Descriptions
pub mod Lifetime
pub mod Locks
pub mod Logging
pub mod Options
pub mod Params
pub mod Poll
pub mod Prelude
pub mod Requests
pub mod Services
pub mod Startup
pub mod Tests
pub mod Transports
pub mod Utils

-- ===== src/Lifetime.antt =====
-- Which threads of a bridge run, and which of its parts are there, from the end of the constructor
-- of `Ros1FoxgloveBridge` to its destructor (src/ros1_foxglove_bridge.cpp), with those of
-- `TransportManager` (src/transport_manager.cpp) and of `Ros1ParameterInterface`
-- (src/param_interface.cpp). Each function gives the states that it passes through, so that between
-- any two of its statements the other threads may act.
pub mod Safe
use foxglove_bridge_ros.Prelude.{
  ℕ, Bool, true, false, not, ◌&&◌, ◌||◌, List, [], ◌∷◌, ◌++◌, if◌then◌else◌,
}

pub record Bridge : Type 0 where
  -- `_paramInterface`, its `_shutdown` and its XML-RPC server, and whether it has a callback.
  pub interface : Bool
  pub interface_shut_down : Bool
  pub xmlrpc_server : Bool
  pub has_update_func : Bool
  -- `_transports`, its `_stopped` and what runs for it; `_gateway` is set after the gateway starts.
  pub transports : Bool
  pub stopped : Bool
  pub sysinfo : Bool
  pub gateway : Bool
  pub gateway_pointer : Bool
  pub server : Bool
  pub worker : Bool
  -- `_clockSubscription`, `_pollThread`, `_shuttingDown`, and the maps with their subscriptions.
  pub clock : Bool
  pub poll_thread : Bool
  pub shutting_down : Bool
  pub maps : Bool
  pub ros_subscriptions : Bool
  -- Detached workers of service calls may be there.
  pub call_workers : Bool

-- A piece of a program: the states that it passes through, from the one after its first statement.
abbrev pub Piece : Type 0
Piece = Bridge → List Bridge

abbrev pub last_of : Bridge → List Bridge → Bridge
last_of b [] = b
last_of b (s ∷ states) = last_of s states

-- The state after a piece.
abbrev pub after : Piece → Bridge → Bridge
after p b = last_of b (p b)

abbrev pub then_do : Piece → Piece → Piece
then_do p q b = p b ++ q (after p b)

abbrev pub only_where : (Bridge → Bool) → Piece → Piece
only_where test p b = if test b then p b else []

abbrev pub set_to : (Bridge → Bridge) → Piece
set_to f b = f b ∷ []

-- `TransportManager::stop`.
unfoldable pub stop : Piece
stop =
    only_where (λ b. not b.stopped)
      (then_do (set_to (λ b. record b { stopped = true })) (
        then_do (only_where (λ b. b.sysinfo) (set_to (λ b. record b { sysinfo = false }))) (
          then_do (only_where (λ b. b.gateway) (set_to (λ b. record b { gateway = false }))) (
            then_do (only_where (λ b. b.server) (set_to (λ b. record b { server = false })))
              (only_where (λ b. b.worker) (set_to (λ b. record b { worker = false })))))))

-- `Ros1ParameterInterface::shutdown`.
unfoldable pub shutdown : Piece
shutdown =
    only_where (λ b. not b.interface_shut_down)
      (then_do (set_to (λ b. record b { interface_shut_down = true }))
        (set_to (λ b. record b { xmlrpc_server = false })))

-- The body of `~Ros1FoxgloveBridge`.
unfoldable pub tear_down : Piece
unfolding shutdown stop
tear_down = then_do (set_to (λ b. record b { shutting_down = true })) (
    then_do (only_where (λ b. b.poll_thread) (set_to (λ b. record b { poll_thread = false })))
      (then_do (only_where (λ b. b.interface) shutdown) stop))

-- The members that matter, destroyed in the reverse order of their declarations:
-- `_clockSubscription`, `_subscriptions`, `_channels`, `_transports` by `~TransportManager`, and
-- `_paramInterface` by `~Ros1ParameterInterface`.
unfoldable pub destroy_members : Piece
unfolding shutdown stop
destroy_members = then_do (set_to (λ b. record b { clock = false })) (
    then_do (set_to (λ b. record b { ros_subscriptions = false })) (
      then_do (set_to (λ b. record b { maps = false })) (
        then_do
          (only_where (λ b. b.transports)
            (then_do stop (set_to (λ b. record b { transports = false; gateway_pointer = false }))))
          (only_where (λ b. b.interface)
            (then_do shutdown
              (set_to (λ b. record b { interface = false; has_update_func = false })))))))

-- `~Ros1FoxgloveBridge` with the members.
unfoldable pub destroy : Piece
unfolding tear_down destroy_members
destroy = then_do tear_down destroy_members

-- What the options and the platform make of a start: the wanted parts, and where it fails.
pub record Setup : Type 0 where
  pub wants_parameters : Bool
  pub server_starts : Bool
  pub sysinfo_starts : Bool
  pub wants_gateway : Bool
  pub gateway_starts : Bool
  pub use_sim_time : Bool

abbrev pub nothing : Bridge
nothing = record {
  interface = false;
  interface_shut_down = false;
  xmlrpc_server = false;
  has_update_func = false;
  transports = false;
  stopped = false;
  sysinfo = false;
  gateway = false;
  gateway_pointer = false;
  server = false;
  worker = false;
  clock = false;
  poll_thread = false;
  shutting_down = false;
  maps = true;
  ros_subscriptions = true;
  call_workers = false;
}

-- The constructor's first part: the parameter interface, whose XML-RPC server it starts.
unfoldable pub make_interface : Setup → Piece
make_interface setup =
    only_where (λ b. setup.wants_parameters)
      (then_do (set_to (λ b. record b { interface = true }))
        (set_to (λ b. record b { xmlrpc_server = true })))

-- The constructor of `TransportManager` throws where the server or the gateway does not start.
abbrev pub transports_start : Setup → Bool
transports_start setup = setup.server_starts && (not setup.wants_gateway || setup.gateway_starts)

-- It starts the server, the system info publisher, the gateway and the worker. `_transports` is set
-- only when it has returned; what it has started before an exception is destroyed by the unwinding.
unfoldable pub make_transports : Setup → Piece
make_transports setup =
    then_do
      (only_where (λ b. setup.server_starts)
        (then_do (set_to (λ b. record b { server = true })) (
          then_do
            (only_where (λ b. setup.sysinfo_starts) (set_to (λ b. record b { sysinfo = true })))
            (only_where (λ b. setup.wants_gateway && setup.gateway_starts)
              (then_do (set_to (λ b. record b { gateway = true }))
                (set_to (λ b. record b { gateway_pointer = true })))))))
      (λ b.
        if transports_start setup
        then then_do (only_where (λ c. c.interface) (set_to (λ c. record c { worker = true })))
            (set_to (λ c. record c { transports = true })) b
        else then_do (set_to (λ c. record c { sysinfo = false }))
            (set_to (λ c. record c { server = false })) b)

-- The rest of the constructor: the callback, the clock and the poll thread, from which on services
-- are advertised and may be called: nothing waits for the detached worker of a call.
unfoldable pub connect : Setup → Piece
connect setup =
    then_do (only_where (λ b. b.interface) (set_to (λ b. record b { has_update_func = true }))) (
      then_do (only_where (λ b. setup.use_sim_time) (set_to (λ b. record b { clock = true }))) (
        then_do (set_to (λ b. record b { poll_thread = true }))
          (set_to (λ b. record b { call_workers = true }))))

-- A bridge from its constructor to the end of its destructor; where the constructor throws, its
-- destructor is not run, but its members are destroyed.
unfoldable pub life : Setup → Piece
unfolding make_interface make_transports connect destroy
life setup = then_do (make_interface setup) (
    then_do (make_transports setup) (λ b.
      if transports_start setup then then_do (connect setup) destroy b else destroy_members b))

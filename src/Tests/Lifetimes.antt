-- ===== src/Tests/Lifetimes.antt =====
-- Lives of a bridge at a concrete setup.
use foxglove_bridge_ros.Prelude.{true, false}
use foxglove_bridge_ros.Lifetime.{Setup}

-- Everything is wanted, and the gateway does not start.
abbrev setup : Setup
setup = record {
  wants_parameters = true;
  server_starts = true;
  sysinfo_starts = true;
  wants_gateway = true;
  gateway_starts = false;
  use_sim_time = true;
}

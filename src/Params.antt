-- ===== src/Params.antt =====
-- The parameter side of the bridge: the queue and the worker of the TransportManager, the
-- conversions between ROS and SDK values, and the backend over the ROS master.
pub mod Worker
pub mod Values
pub mod Interface
pub mod Registered

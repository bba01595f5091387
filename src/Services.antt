-- ===== src/Services.antt =====
-- Services in src/ros1_foxglove_bridge.cpp: discovery (`updateAdvertisedServices`), requests
-- (`handleServiceRequest`) and their deadlines (`sweepExpiredServiceCalls`).
pub mod Advertised
pub mod Calls
pub mod Probe
pub mod Published
pub mod Wire

-- ===== src/Poll.antt =====
-- The master poll thread of src/ros1_foxglove_bridge.cpp: what one poll does (`Cycle`), how long the
-- thread waits for the next (`Backoff`), and how it is woken and stopped (`Wakeup`).
pub mod Backoff
pub mod Cycle
pub mod Wakeup
pub mod Timing

-- ===== src/Tests.antt =====
-- The theorems at concrete inputs, by the part of the program that they are about.
mod Samples
mod Parameters
mod Topics
mod Polls
mod Clients
mod Calls
mod Access
mod Flags
mod Sessions
mod Startups
mod Probes
mod Wakeups
mod Locking
mod Mixtures
mod Lifetimes
mod Registrations

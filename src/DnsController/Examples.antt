-- ===== src/DnsController/Examples.antt =====
-- A provider that is a list of zones, and the controller at concrete load balancers.
pub mod Provider
pub mod Rounds
mod Settled
pub mod Zones

-- ===== src/Tests.antt =====
-- Runs of the components on small inputs, and every theorem at a concrete input.
mod Data
mod Transfer
mod Programs
mod Experiments
mod Network
mod Hosts
mod Formats
mod Clients
mod Leases
mod Sessions
mod Pings
mod Lines

-- ===== src/Tests.antt =====
-- The theorems at concrete inputs, and runs of the code.
mod Managing
mod Addresses
mod Requests
mod Targets
mod Registering
mod Transports
mod Upgrades
mod Relays
mod Nodes
mod Signals

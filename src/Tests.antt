-- ===== src/Tests.antt =====
-- The theorems at concrete inputs that meet their hypotheses.
mod World
mod Checksum
mod Queues
mod Rolls
mod Clients
mod Starts
mod Settings
mod Files
mod Requests
mod Hosts
mod Ends

-- ===== src/Tests.antt =====
-- Runs of the theorems at concrete inputs.
mod Wire
mod Queues
mod Client
mod Channels
mod Addresses
mod Connections
mod Serving
mod Proxying

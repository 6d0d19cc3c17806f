-- ===== src/Tests.antt =====
-- Concrete states on which the definitions run and the theorems apply.
mod Buffers
mod Connections
mod Watchers
mod Loops
mod Servers
mod Messages
mod Clients
mod Databases
mod Pools
mod Serving
mod Sharing
mod Acceptors
mod Gates

-- ===== src/Tests.antt =====
-- Each theorem of the results at a concrete input.
mod Samples
mod Queues
mod Engines
mod Rules
mod Stores
mod Requests
mod Services

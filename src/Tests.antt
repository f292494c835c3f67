-- ===== src/Tests.antt =====
-- A small environment and world, and every property applied to them.
mod Fixtures
mod Worker
mod Intake
mod Events
mod Running
mod Nodes
mod Http

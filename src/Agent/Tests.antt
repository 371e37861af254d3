-- ===== src/Agent/Tests.antt =====
-- Witnesses and tests of the agent workers (workers/src/zippy_workers).
mod Core
mod Ticks
mod Tasks

-- ===== src/Agent.antt =====
-- The agent workers (workers/src/zippy_workers): the execution states, the capability matrix, the
-- loop guardian, the executor and the heartbeat kernel.
pub mod State
pub mod Guardian
pub mod Capabilities
pub mod Executor
pub mod Handlers
pub mod Kernel
mod Tests

-- ===== src/Circuit.antt =====
-- workers/src/zippy_workers/provider_circuit.py: one provider request at a time, latched by any
-- failure. The private directory is a state, and every system call may fail; closing a file and the
-- removal of a lock are taken to succeed. A process that dies between two system calls leaves the files
-- that a failure of the second leaves.
pub mod Store
pub mod Calls
mod Tests

-- ===== src/Raft.antt =====
-- Distributed/raft: the consensus of a cluster.
pub mod Message
pub mod Instance
pub mod Transmitter
pub mod Agent
pub mod Handlers
pub mod Loops
pub mod Spec
pub mod Frame
pub mod Refine
pub mod Switches
pub mod Steps
pub mod Promises
pub mod Safety
pub mod Votes
pub mod Extra
mod Tests

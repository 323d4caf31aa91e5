-- ===== src/Cluster.antt =====
-- src/cluster: the drive nodes' lock tables, and the quorum lock over them.
pub mod LockTable
pub mod Fencing
pub mod Quorum
pub mod Holding
pub mod Waiting
pub mod Leases
pub mod Liveness
pub mod Server
pub mod Refusal

-- ===== src/Proc.antt =====
-- The package `proc`: the flags of an etcd process, the nodes that run one, and the cluster of them.
pub mod Error
pub mod Flags
pub mod Message
pub mod Node
pub mod Cluster
pub mod Helpers
pub mod RandomBytes

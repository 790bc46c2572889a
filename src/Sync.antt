-- ===== src/Sync.antt =====
-- scottycore/services/sync: the mesh synchronisation of rows between nodes.
pub mod Lww
pub mod Rows
pub mod Apply
pub mod Bundle
pub mod Peers
pub mod Keys
pub mod Registry
pub mod Identity
pub mod Cycle
pub mod Workers

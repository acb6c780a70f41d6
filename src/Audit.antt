-- ===== src/Audit.antt =====
-- The user-space side of pkg/audit in Go: it reads the events that the programs send.
pub mod Binary
pub mod Helpers
pub mod FileAccess
pub mod Mount
pub mod Network
pub mod Dns
pub mod Deployed
pub mod Paths

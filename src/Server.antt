-- ===== src/Server.antt =====
-- cmd/server: the program in the cluster that dials the destinations.
pub mod Conn
pub mod Idle

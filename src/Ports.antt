-- ===== src/Ports.antt =====
-- pkg/ports: port specifications such as `8080:http` and `:53@udp`.
pub mod Object
pub mod Parser

-- ===== src/Client.antt =====
-- cmd/client: the kubectl plugin.
pub mod Socks5
pub mod Tunnel
pub mod TcpConn
pub mod Heartbeats
pub mod Targets
pub mod Forwarders
pub mod UdpForwarder
pub mod UdpConn
pub mod Run
pub mod ErrorStream
pub mod Accept
pub mod Copying

-- ===== src/Xnet.antt =====
-- pkg/xnet: addresses, the wire header, acknowledgements and the framing of UDP packets.
pub mod Addr
pub mod RequestId
pub mod Header
pub mod Ack
pub mod Udp
pub mod Tcp

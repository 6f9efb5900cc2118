-- ===== src/RemoteAddr.antt =====
-- pkg/remoteaddr: where a forwarder's connections go.
pub mod Dynamic
pub mod Getter

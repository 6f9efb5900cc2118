-- ===== src/Tests.antt =====
-- Runs of the definitions, and the theorems at concrete inputs.
mod Wire
mod Tcp
mod Udp
mod Ports
mod Socks5
mod Server
mod Idle
mod Accept
mod Alarm
mod Copying
mod ServerPod
mod Run
mod UdpConn
mod Launch
mod Session
mod Client
mod Dynamic
mod Targets
mod Forwarders
mod Job
mod UdpForwarder

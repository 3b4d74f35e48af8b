-- ===== src/Forwarder.antt =====
-- src/forwarder.py: forwarding of requests and tunnels.
pub mod Tunnel
pub mod Outbound
pub mod Relay
pub mod Http

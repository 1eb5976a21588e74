-- ===== src/Udp.antt =====
-- src/wireline/transport/udp.py: the reliable layer over datagrams.
pub mod Window
pub mod Server
pub mod Client
pub mod Link

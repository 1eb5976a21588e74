-- ===== src/Sniff.antt =====
-- src/wireline/sniff: the analyser of packet captures.
pub mod Pcap
pub mod Rows
pub mod Dissect
pub mod Flows
pub mod Output

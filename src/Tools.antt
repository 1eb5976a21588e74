-- ===== src/Tools.antt =====
-- src/tools: the scripts around the program.
pub mod Packets
pub mod Sessions

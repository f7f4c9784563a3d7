-- ===== src/Tests.antt =====
-- Runs of the models at concrete inputs, and each theorem at an input where its hypotheses hold.
pub mod Console
pub mod Socket
pub mod Pool
pub mod Server
pub mod Ledger
pub mod Closing
pub mod Ports
pub mod Memory
pub mod Launch
pub mod Service
pub mod Tools
pub mod Handshake

-- ===== src/ControlBoard.antt =====
-- The integrated control board: its 10-byte serial frames.
pub mod Crc
pub mod Packet
pub mod Protocol
pub mod Parser
pub mod Frames
pub mod Build
pub mod HexText
pub mod Service
pub mod History
pub mod Ingest
pub mod Broadcast
mod Tests

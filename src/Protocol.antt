-- ===== src/Protocol.antt =====
-- vrc_ardy_agent/stream_protocol.py: the messages of the bridge between the two machines, and how they
-- become JSON objects and are read back.
pub mod Base64
pub mod Messages
pub mod Checks
pub mod Size
pub mod Encode
pub mod Decode
pub mod Again
pub mod Shapes
pub mod Rounds
pub mod RoundTrip
pub mod Sound
pub mod Commands
pub mod Bounds
mod Tests

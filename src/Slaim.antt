-- ===== src/Slaim.antt =====
-- messaging/slaim: the message type, its wire format, the buffer and the error log.
pub mod Message
pub mod Wire
pub mod ErrorLog
pub mod Buffer
pub mod Segments
mod Tests

-- ===== src/Claim.antt =====
-- messaging/claim: messages with attributes, the stream format, and the post office.
pub mod AttributeMessage
pub mod Streaming
pub mod PostOffice
pub mod ThroughputStatistics
mod Tests

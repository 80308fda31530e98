-- ===== src/Numrabw.antt =====
-- messaging/numrabw: the buffers between the post office and its two threads.
pub mod LimitedSizeBuffer
pub mod PostOffice
mod Tests

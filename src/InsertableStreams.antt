-- ===== src/InsertableStreams.antt =====
-- End-to-end encryption of media (src/client/insertable-streams/index.ts).
pub mod Frames
pub mod Worker
pub mod Client
mod Tests

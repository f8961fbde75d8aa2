-- ===== src/Codec.antt =====
-- The message codec (src/client/codec).
pub mod Header
pub mod Bytes
pub mod Worker
pub mod Decoder
pub mod Encoder
pub mod RoundTrip
mod Tests

-- ===== src/Core.antt =====
-- crates/zbacs-core: the sealed container. Its name padding, header, data key envelopes, chunk
-- stream, version chain, and the round trip of seal and open.
pub mod External
pub mod Header
pub mod Name
pub mod Container
pub mod Padding
pub mod Chunks
pub mod Frames
pub mod RoundTrip
pub mod Reading
pub mod Sealing
pub mod Opening
pub mod Versions
pub mod Resealing
pub mod Superseding
pub mod Toy
pub mod Tests

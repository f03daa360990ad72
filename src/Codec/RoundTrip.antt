-- ===== src/Codec/RoundTrip.antt =====
-- catalog_codec.cpp: the encoders and the decoders together.
mod Ints
mod Summary
mod Queue
mod Catalog
mod Residents
pub mod Files
pub mod Truncation

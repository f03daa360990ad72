-- ===== src/Codec.antt =====
-- firmware/beer_terminal/catalog_codec.cpp: the on-flash format. The children hold the byte
-- accessors, the checksum, the header check, the four record layouts, and the proofs.
pub mod Bytes
pub mod Blob
pub mod Capacity
pub mod Format
pub mod Fields
pub mod Loops
pub mod Check
pub mod RoundTrip

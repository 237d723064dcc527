-- ===== src/Audio/Flac.antt =====
-- internal/audio/flacsplit/flacsplit.go: a track cut out of a FLAC image. Image is the metadata, Frame the
-- frame headers, Search the way from a sample to a byte. Bytes are naturals below 256.
pub mod Bytes
pub mod Image
pub mod Number
pub mod Frame
pub mod Search

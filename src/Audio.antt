-- ===== src/Audio.antt =====
-- internal/audio: the cue sheets of single-file albums, and the cutting of FLAC images.
pub mod Cue
pub mod Flac

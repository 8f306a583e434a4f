-- ===== src/Transcription.antt =====
-- backend/transcription: what an engine returns, and who speaks.
pub mod Base
pub mod Diarize
pub mod Mock

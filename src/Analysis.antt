-- ===== src/Analysis.antt =====
-- backend/analysis: scoring, the quote gate and what is derived from the transcript.
pub mod Rubric
pub mod Recompute
pub mod Difflib
pub mod Verify
pub mod Metrics
pub mod Schema
pub mod Luhn
pub mod Regex
pub mod Redaction
pub mod Llm

-- ===== src/Tests.antt =====
-- Runs of the definitions, and instances of the theorems, on small data.
mod Samples
mod Analysis
mod Queue
mod Llm
mod Redaction
mod Disputes
mod Entry
mod Upload

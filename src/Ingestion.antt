-- ===== src/Ingestion.antt =====
-- backend/ingestion: how a recording becomes a call.
pub mod Validation
pub mod Envelope
pub mod Service
pub mod Adapters

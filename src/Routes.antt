-- ===== src/Routes.antt =====
-- backend/app/routes: what the requests do.
pub mod Disputes
pub mod Ops
pub mod Calls
pub mod Ingest

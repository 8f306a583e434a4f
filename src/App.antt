-- ===== src/App.antt =====
-- backend/app: what stands before the routes.
pub mod RateLimit

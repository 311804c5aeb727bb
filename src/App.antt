-- ===== src/App.antt =====
-- internal/app: the application service, of which Idempotency models the cache of applied requests.
pub mod Idempotency

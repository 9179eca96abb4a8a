-- ===== src/Api.antt =====
-- The HTTP client of the frontend (frontend/src/core/api).
pub mod World
pub mod Client
pub mod SharedRefresh
pub mod Trace
pub mod Headers
mod Tests

-- ===== src/Auth.antt =====
-- Authentication and authorisation of the frontend (frontend/src/core/auth).
pub mod Role
pub mod Access
pub mod Navigation
pub mod Expiry
pub mod State
pub mod Mfa
pub mod Flows
pub mod LoginForm
mod Tests

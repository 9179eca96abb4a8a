-- ===== src/Registration.antt =====
-- The registration of an athlete or a leader (frontend/src/modules/registration).
pub mod Form
pub mod Errors
pub mod Draft
pub mod Deletion
mod Tests

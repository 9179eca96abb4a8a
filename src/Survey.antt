-- ===== src/Survey.antt =====
-- The sport and number surveys (frontend/src/modules/survey and frontend/src/modules/bynumber): their
-- cached reads and their submissions.
pub mod Schema
pub mod Cache
pub mod Reads
pub mod ByNumber
pub mod Submit
mod Tests

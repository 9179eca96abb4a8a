-- ===== src/OpenSurvey.antt =====
-- The open survey (frontend/src/modules/opensurvey/schema): fields that administrators define and
-- organizations fill in.
pub mod Choices
pub mod Options
pub mod Builder
pub mod Fill
pub mod Reorder
mod Tests

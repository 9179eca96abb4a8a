-- ===== src/Review.antt =====
-- The review queues (frontend/src/modules/participation, sportreview and categoryreview, types/index.ts):
-- submissions grouped for the reviewer.
pub mod Grouping
pub mod Queues
mod Tests

-- ===== src/Wizard/Register/TeamChoice.antt =====
-- The team with which an athlete of a team category is registered.
use choschmous_v.Base.{nat_eq, text_eq}

-- ===== src/Wizard/Register/Choices.antt =====
-- What the fields of the first two steps write into the registration's form
-- (modules/registration/components/RegisterEventStep.tsx, RegisterCategoryStep.tsx): a choice clears
-- those that depend on it.
use choschmous_v.Base.{ℕ, Option, none, some, nat_eq, Text, text_eq}
use choschmous_v.Registration.Form.{Input}

unfoldable pub choose_event_type : Text → Input → Input
choose_event_type id f = record f {
  event_type = some id;
  event_id = none;
  sport_id = none;
  category_id = none;
}

unfoldable pub choose_event : ℕ → Input → Input
choose_event id f = record f { event_id = some id; sport_id = none; category_id = none }

unfoldable pub choose_organization : Text → Input → Input
choose_organization id f = record f {
  organization_id = some id;
  sport_id = none;
  category_id = none;
}

unfoldable pub choose_sport : Option ℕ → Input → Input
choose_sport id f = record f { sport_id = id; category_id = none }

unfoldable pub choose_category : ℕ → Input → Input
choose_category id f = record f { category_id = some id }

-- ===== src/Wizard/Tests.antt =====
-- Visits of the wizards on concrete inputs.
use choschmous_v.Base.{
  ℕ, ◌≡◌, refl, ◌⊎◌, Bool, true, false, Option, none, some, List, [], ◌∷◌, if◌then◌else◌, ◌==◌,
  nat_eq, includes, codes, text_eq,
}
use choschmous_v.Wizard.{advance, index_of, go_to_step}
use choschmous_v.Wizard.Survey
use choschmous_v.Wizard.Survey.{step_eq as survey_step_eq}
use choschmous_v.Wizard.Survey.Laws.{review_needs_checks, nexts, nexts_reach_review}
use choschmous_v.Wizard.ByNumber
use choschmous_v.Wizard.ByCategory
use choschmous_v.Wizard.ByCategory.{step_eq as category_step_eq}
use choschmous_v.Wizard.ByCategory.Laws.{review_of_categories}
use choschmous_v.Wizard.ByCategory.Previous.{Entry, fetch_previous_categories}

abbrev valid : Survey.Form → Survey.Step → Bool
valid f x = true

abbrev survey_start : Survey.State
survey_start = record {
  position = record { current = some Survey.event_type; max_reached = 0 };
  is_success = false;
  selected_event_type = some (codes "NATIONAL");
  event_sports = [];
  last_submitted = none;
  form = record { event_id = some 3; organization_id = some 7; sport_ids = 4 ∷ [] };
}

nexts_reach_review_example : (nexts true valid 4 survey_start).position.current ≡ some Survey.review
unfolding Survey.form_steps
nexts_reach_review_example =
    nexts_reach_review true valid survey_start (codes "NATIONAL", refl, refl) (λ x. refl) refl

abbrev survey_review : Survey.State
survey_review = Survey.handle_next (Survey.form_steps false) valid (
    Survey.handle_next (Survey.form_steps false) valid
      (Survey.handle_next (Survey.form_steps false) valid survey_start))

survey_visit :
    Survey.Laws.Reach false valid
      (Survey.sports ∷ Survey.event ∷ Survey.event_type ∷ [])
      survey_review
unfolding Survey.mount Survey.can_proceed Survey.handle_next Survey.form_steps advance index_of
    go_to_step Survey.step_eq
survey_visit = Survey.Laws.Reach.next (
    Survey.Laws.Reach.next (
      Survey.Laws.Reach.next (
        Survey.Laws.Reach.fill survey_start.form (some (codes "NATIONAL"))
          (Survey.Laws.Reach.start none))))

survey_at_review : survey_review.position.current ≡ some Survey.review
unfolding Survey.handle_next Survey.can_proceed Survey.form_steps advance index_of go_to_step
    Survey.step_eq
survey_at_review = refl

abbrev survey_log : List Survey.Step
survey_log = Survey.sports ∷ Survey.event ∷ Survey.event_type ∷ []

review_needs_checks_example :
    (includes survey_log Survey.event_type ≡ true)
    × (includes survey_log Survey.event ≡ true)
    × ((false ≡ false) ⊎ (includes survey_log Survey.organization ≡ true))
    × (includes survey_log Survey.sports ≡ true)
review_needs_checks_example = review_needs_checks false valid survey_visit survey_at_review

merged : Survey.merge_existing (5 ∷ 2 ∷ []) (2 ∷ 9 ∷ []) ≡ 5 ∷ 2 ∷ 9 ∷ []
unfolding Survey.merge_existing
merged = refl

abbrev fields_valid : ByNumber.Form → List ByNumber.Field → Bool
fields_valid f xs = true

abbrev number_start : ByNumber.State
number_start = record {
  position = record { current = some Survey.event; max_reached = 2 };
  is_success = false;
  selected_event_type = some (codes "NATIONAL");
  sports_loading = false;
  form = record { event_id = some 3; organization_id = some 7; sports = [] };
}

abbrev rows_valid : ByCategory.Form → Bool
rows_valid f = true

abbrev filled_form : ByCategory.Form
filled_form = record {
  event_id = some 3;
  sport_id = some 4;
  categories = [];
  previous_categories = [];
}

abbrev category_review : ByCategory.State
category_review = ByCategory.handle_next true rows_valid (
    ByCategory.handle_next true rows_valid
      (ByCategory.handle_next true rows_valid (record ByCategory.initial { form = filled_form })))

abbrev category_log : List ByCategory.Step
category_log = ByCategory.categories ∷ ByCategory.sport ∷ ByCategory.event ∷ []

category_visit : ByCategory.Laws.Reach true rows_valid category_log category_review
unfolding ByCategory.can_proceed ByCategory.handle_next advance index_of go_to_step
    ByCategory.step_eq
category_visit = ByCategory.Laws.Reach.next (
    ByCategory.Laws.Reach.next (
      ByCategory.Laws.Reach.next
        (ByCategory.Laws.Reach.fill filled_form ByCategory.Laws.Reach.start)))

category_at_review : category_review.position.current ≡ some ByCategory.review
unfolding ByCategory.handle_next ByCategory.can_proceed advance index_of go_to_step
    ByCategory.step_eq
category_at_review = refl

-- The request for the event 4 fails, and the event 6 has an entry.
abbrev entries_of : ℕ → ℕ → Option (List Entry)
entries_of id sport_id =
    if id == 6 then some (record { category = codes "U18"; gender = none } ∷ []) else none

one_row :
    fetch_previous_categories (some (3 ∷ 4 ∷ 6 ∷ [])) entries_of 4 3
    ≡ record { name = codes "U18"; gender = ByCategory.mixed } ∷ []
unfolding fetch_previous_categories
one_row = refl

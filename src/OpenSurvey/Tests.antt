-- ===== src/OpenSurvey/Tests.antt =====
-- A field with two options and a form with one question, on concrete inputs.
use choschmous_v.Base.{
  ◌⊎◌, ℕ, ◌≡◌, refl, ◌↔◌, inl, inr, Bool, true, false, ◌&&◌, none, some, List, [], ◌∷◌,
  if◌then◌else◌, nat_eq, is_some, All, Text, codes, text_eq, is_empty, trim,
}
use choschmous_v.Base.Assoc.{get, put}
use choschmous_v.Base.Decimal.{show}
use choschmous_v.OpenSurvey.Choices.{
  FieldType, choice_control_for, is_choice_field_type, parse_checkbox_selection,
  join_checkbox_selection,
}
use choschmous_v.OpenSurvey.Choices.Laws.{IsKey}
use choschmous_v.OpenSurvey.Options.{
  ChoiceOption, options_json, extract_field_options, inputs_to_field_options,
}
use choschmous_v.OpenSurvey.Builder.{FormValues, parse_form, form_values_to_create_dto}
use choschmous_v.OpenSurvey.Builder.Laws.{HasKeys, parse_form_iff, accepted_selection_round_trip}
use choschmous_v.OpenSurvey.Fill.{
  Field, Responses, build_open_survey_form_schema, parse_responses, fields_to_defaults,
  form_values_to_payload,
}
use choschmous_v.OpenSurvey.Fill.Laws.{untouched_form, accepted_form}

abbrev yes : ChoiceOption
yes = record { value = codes " yes"; label = codes "Yes" }

abbrev no : ChoiceOption
no = record { value = codes "no"; label = codes " " }

abbrev inputs : List ChoiceOption
inputs = yes ∷ no ∷ []

abbrev form : FormValues
form = record {
  label_kh = codes "Food";
  label_en = [];
  field_type = FieldType.checkbox;
  options = inputs;
  required = true;
  active = true;
  sort_order = 1;
}

abbrev stored : List ChoiceOption
stored =
    record { value = codes "yes"; label = codes "Yes" }
    ∷ record { value = codes "no"; label = codes "no" }
    ∷ []

form-is_accepted : is_some (parse_form form) ≡ true
unfolding parse_form trim
form-is_accepted = refl

form_is_choice : is_choice_field_type FieldType.checkbox ≡ true
unfolding is_choice_field_type
form_is_choice = refl

form_is_stored : (form_values_to_create_dto form).options ≡ some stored
unfolding form_values_to_create_dto trim is_choice_field_type inputs_to_field_options
form_is_stored = refl

abbrev selection : List Text
selection = codes "no" ∷ codes "yes" ∷ []

accepted_selection_round_trip_example :
    (extract_field_options (some (options_json stored)) ≡ some stored)
    × (parse_checkbox_selection (join_checkbox_selection selection) ≡ selection)
accepted_selection_round_trip_example =
    accepted_selection_round_trip form stored selection form-is_accepted form_is_choice
      form_is_stored (inr (inl refl), (inl refl, tt))

parse_form_iff_example : (is_some (parse_form form) ≡ true) ↔ (
    (is_empty (trim (codes "Food")) ≡ false)
    × ((is_choice_field_type FieldType.checkbox ≡ false) ⊎ HasKeys inputs))
parse_form_iff_example = parse_form_iff form

filled : All (λ o. is_empty (trim o.value) ≡ false) inputs
unfolding trim
filled = (refl, (refl, tt))

selection_keys : All IsKey selection
unfolding trim
selection_keys = ((refl, refl, (refl, (refl, tt))), ((refl, refl, (refl, (refl, (refl, tt)))), tt))

abbrev question : ℕ → ℕ → Bool → Field
question id order required = record {
  id = id;
  field_id = id;
  organization_id = 4;
  value = none;
  field_type = codes "text";
  label_kh = codes "Q";
  label_en = none;
  created_at = none;
  updated_at = none;
  options = none;
  required = required;
  sort_order = order;
}

abbrev questions : List Field
questions = question 7 2 true ∷ question 8 1 false ∷ []

-- Saved with blanks around it, and required.
abbrev saved : List Field
saved = record (question 7 2 true) { value = some (codes " rice ") } ∷ question 8 1 false ∷ []

abbrev resubmitted : Responses
resubmitted = (codes "7", codes "rice") ∷ (codes "8", []) ∷ []

saved_passes :
    parse_responses (build_open_survey_form_schema saved) (fields_to_defaults saved)
    ≡ some resubmitted
unfolding parse_responses build_open_survey_form_schema fields_to_defaults trim get put
    choice_control_for show
saved_passes = refl

untouched_form_example :
    (get 7 (form_values_to_payload resubmitted saved 3 none).responses
      ≡ some (some (if true then trim (codes " rice ") else codes " rice ")))
    × (true ≡ true → is_empty (trim (codes " rice ")) ≡ false)
untouched_form_example =
    untouched_form saved resubmitted 3 none
      (record (question 7 2 true) { value = some (codes " rice ") }) ((refl, tt), (tt, tt))
      (inl refl) saved_passes

abbrev answers : Responses
answers = (codes "7", codes " rice ") ∷ (codes "8", []) ∷ []

abbrev parsed : Responses
parsed = (codes "7", codes "rice") ∷ (codes "8", []) ∷ []

answers_parsed : parse_responses (build_open_survey_form_schema questions) answers ≡ some parsed
unfolding parse_responses build_open_survey_form_schema trim get put choice_control_for show
answers_parsed = refl

accepted_form_example :
    (typed answer : Text) × (get (show 7) answers ≡ some typed)
    × (get 7 (form_values_to_payload parsed questions 3 none).responses ≡ some (some answer))
    × (answer ≡ (if true then trim typed else typed))
    × (true && is_empty answer ≡ false)
accepted_form_example =
    accepted_form questions answers parsed 3 none (question 7 2 true) ((refl, tt), (tt, tt))
      (inl refl) answers_parsed

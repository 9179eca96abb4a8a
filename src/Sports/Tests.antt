-- ===== src/Sports/Tests.antt =====
-- Doubles, and a team without a largest size.
use choschmous_v.Base.{
  ℕ, ◌≡◌, refl, Option, none, some, [], ltb, if◌then◌else◌, nat_eq, or_else, Text, codes, text_eq,
}
use choschmous_v.Sports.{
  Gender, male, other, team, missing, typed, Inputs, Values, gender_schema, team_size_field,
  converted, category_form_schema, form_data_to_add_category, form_data_to_update_category,
  default_values,
}
use choschmous_v.Sports.Laws.{stored, with_gender, without_sizes, reopened_category}

-- Every text is the number 2.
abbrev two : Text → Option ℕ
two s = some 2

abbrev doubles : Inputs
doubles = record {
  category = codes "Doubles";
  gender = some (codes "MALE");
  category_type = team;
  team_size_min = missing;
  team_size_max = typed (codes "2");
}

abbrev doubles_values : Values
doubles_values = record {
  category = codes "Doubles";
  gender = some male;
  category_type = team;
  team_size_min = none;
  team_size_max = some 2;
}

doubles_accepted : category_form_schema two doubles ≡ some doubles_values
unfolding category_form_schema converted gender_schema team_size_field
doubles_accepted = refl

-- The server stores no gender but the two.
abbrev normalize : Option Gender → Option Gender
normalize (some other) = none
normalize g = g

reopened_category_example :
    let sent = form_data_to_add_category 3 doubles_values in
    let kept = with_gender (normalize sent.gender) sent in
    (w : Values) × (category_form_schema two (default_values (stored normalize 5 sent)) ≡ some w)
    × (form_data_to_update_category 5 3 w
        ≡ (5, if ltb 1 (or_else sent.team_size_max 1) then kept else without_sizes kept))
reopened_category_example =
    reopened_category two normalize 5 3 doubles doubles_values doubles_accepted

-- The choice "mixed" stores an empty text, which the schema refuses.
mixed_refused : gender_schema (some []) ≡ none
unfolding gender_schema
mixed_refused = refl

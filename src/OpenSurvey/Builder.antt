-- ===== src/OpenSurvey/Builder.antt =====
-- The builder of a field (openSurveyField.schema.ts): its form, the form's validation and the DTOs.
pub mod Laws
use choschmous_v.Base.{
  ℕ, ◌+◌, Bool, true, false, Option, none, some, List, [], ◌∷◌, ◌++◌, if◌then◌else◌, nat_eq,
  or_else, includes, Text, text_eq, is_empty, trim,
}
use choschmous_v.OpenSurvey.Choices.{
  FieldType, text, is_choice_field_type, normalize_field_type, comma,
}
use choschmous_v.OpenSurvey.Options.{
  Props, ChoiceOption, field_options_to_inputs, inputs_to_field_options,
}

-- A field as the server sends it.
pub record FieldDef : Type 0 where
  pub id : ℕ
  pub event_id : ℕ
  pub label_kh : Text
  pub label_en : Option Text
  pub field_type : Text
  pub options : Option Props
  pub required : Bool
  pub sort_order : ℕ
  pub active : Bool
  pub created_at : Option Text

pub record FormValues : Type 0 where
  pub label_kh : Text
  pub label_en : Text
  pub field_type : FieldType
  pub options : List ChoiceOption
  pub required : Bool
  pub active : Bool
  pub sort_order : ℕ

pub record CreateDto : Type 0 where
  pub label_kh : Text
  pub label_en : Option Text
  pub field_type : FieldType
  pub options : Option (List ChoiceOption)
  pub required : Bool
  pub sort_order : ℕ

pub record UpdateDto : Type 0 where
  pub label_kh : Text
  pub label_en : Option Text
  pub field_type : FieldType
  pub options : Option (List ChoiceOption)
  pub required : Bool
  pub active : Bool
  pub sort_order : ℕ

-- The issues of the form, an option's with its index.
pub data Issue : Type 0 where
  label_kh_required options_required : Issue
  option_empty option_comma option_duplicate : ℕ → Issue

abbrev pub report : Bool → Issue → List Issue
report true issue = issue ∷ []
report false issue = []

abbrev pub value_issues : List Text → ℕ → Text → List Issue
value_issues seen index value =
    if is_empty value
    then option_empty index ∷ []
    else report (includes value comma) (option_comma index)
      ++ report (includes seen value) (option_duplicate index)

-- The loop over the options; an empty value is not added to the set.
unfoldable pub issues_from : List Text → ℕ → List ChoiceOption → List Issue
issues_from seen index [] = []
issues_from seen index (o ∷ os) =
    value_issues seen index (trim o.value)
    ++ issues_from (if is_empty (trim o.value) then seen else trim o.value ∷ seen) (index + 1) os

abbrev pub choice_issues : List ChoiceOption → List Issue
choice_issues [] = options_required ∷ []
choice_issues (o ∷ os) = issues_from [] 0 (o ∷ os)

unfoldable pub option_issues : FormValues → List Issue
unfolding issues_from is_choice_field_type
option_issues v = if is_choice_field_type v.field_type then choice_issues v.options else []

abbrev pub accepted : List Issue → FormValues → Option FormValues
accepted [] v = some (record v { label_kh = trim v.label_kh; label_en = trim v.label_en })
accepted (i ∷ is) v = none

-- The schema's parse: the form with its labels trimmed, or `none` if there is an issue.
unfoldable pub parse_form : FormValues → Option FormValues
unfolding option_issues
parse_form v = accepted (report (is_empty (trim v.label_kh)) label_kh_required ++ option_issues v) v

unfoldable pub field_to_form_values : Option FieldDef → ℕ → FormValues
field_to_form_values none next_sort_order = record {
  label_kh = [];
  label_en = [];
  field_type = FieldType.text;
  options = [];
  required = true;
  active = true;
  sort_order = next_sort_order;
}
field_to_form_values (some field) next_sort_order = record {
  label_kh = field.label_kh;
  label_en = or_else field.label_en [];
  field_type = normalize_field_type field.field_type;
  options = field_options_to_inputs field.options;
  required = field.required;
  active = field.active;
  sort_order = field.sort_order;
}

abbrev pub text_or_null : Text → Option Text
text_or_null s = if is_empty (trim s) then none else some (trim s)

abbrev pub dto_options : FormValues → Option (List ChoiceOption)
dto_options v =
    if is_choice_field_type v.field_type then some (inputs_to_field_options v.options) else none

unfoldable pub form_values_to_create_dto : FormValues → CreateDto
form_values_to_create_dto v = record {
  label_kh = trim v.label_kh;
  label_en = text_or_null v.label_en;
  field_type = v.field_type;
  options = dto_options v;
  required = v.required;
  sort_order = v.sort_order;
}

unfoldable pub form_values_to_update_dto : FormValues → UpdateDto
form_values_to_update_dto v = record {
  label_kh = trim v.label_kh;
  label_en = text_or_null v.label_en;
  field_type = v.field_type;
  options = dto_options v;
  required = v.required;
  active = v.active;
  sort_order = v.sort_order;
}

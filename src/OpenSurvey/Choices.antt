-- ===== src/OpenSurvey/Choices.antt =====
-- Field types and the controls that they are rendered with, and the checkbox encoding.
pub mod Laws
use choschmous_v.Base.{
  ℕ, Bool, true, false, not, ◌||◌, Option, none, some, List, map, if◌then◌else◌, ◌==◌, nat_eq,
  filter, Text, codes, text_eq, is_empty, trim, to_lower,
}
use choschmous_v.Base.Splitting.{split, join}

-- `OpenSurveyFieldType`
pub data FieldType : Type 0 where
  text number select radio checkbox : FieldType

-- `OpenSurveyChoiceControl`
pub data Control : Type 0 where
  select radio checkbox : Control

unfoldable pub is_choice_field_type : FieldType → Bool
is_choice_field_type FieldType.select = true
is_choice_field_type FieldType.radio = true
is_choice_field_type FieldType.checkbox = true
is_choice_field_type text = false
is_choice_field_type number = false

-- The strings of `OPEN_SURVEY_FIELD_TYPES`.
abbrev pub field_type_value : FieldType → Text
field_type_value text = codes "text"
field_type_value number = codes "number"
field_type_value FieldType.select = codes "select"
field_type_value FieldType.radio = codes "radio"
field_type_value FieldType.checkbox = codes "checkbox"

abbrev pub known_type : Text → FieldType
known_type s =
    if s == codes "number"
    then number
    else if s == codes "select"
    then FieldType.select
    else if s == codes "radio"
    then FieldType.radio
    else if s == codes "checkbox"
    then FieldType.checkbox
    else text

abbrev pub normalized_type : Text → FieldType
normalized_type s = if s == codes "dropdown" then FieldType.select else known_type s

-- An unknown type is rendered, and so edited, as text.
unfoldable pub normalize_field_type : Text → FieldType
normalize_field_type s = normalized_type (to_lower (trim s))

abbrev pub control_of : Text → Option Control
control_of s =
    if s == codes "select" || s == codes "dropdown"
    then some Control.select
    else if s == codes "radio"
    then some Control.radio
    else if s == codes "checkbox"
    then some Control.checkbox
    else none

unfoldable pub choice_control_for : Text → Option Control
choice_control_for s = control_of (to_lower (trim s))

pub data InputType : Type 0 where
  number text : InputType

abbrev pub input_of : Text → InputType
input_of s = if s == codes "number" then InputType.number else InputType.text

unfoldable pub html_input_type : Text → InputType
html_input_type s = input_of (to_lower (trim s))

abbrev pub comma : ℕ
comma = 44

-- The checked values of a multi-select field are stored as one comma-joined string.
unfoldable pub parse_checkbox_selection : Text → List Text
unfolding split
parse_checkbox_selection value = filter (λ part. not (is_empty part)) (map trim (split comma value))

unfoldable pub join_checkbox_selection : List Text → Text
unfolding join
join_checkbox_selection values = join comma values

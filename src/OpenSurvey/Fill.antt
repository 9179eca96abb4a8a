-- ===== src/OpenSurvey/Fill.antt =====
-- The fill view of the open survey (opensurvey.schema.ts): ordering, the form and its payload.
pub mod Laws
use choschmous_v.Base.{
  ℕ, Bool, ◌&&◌, ◌||◌, Option, none, some, List, [], ◌∷◌, ltb, if◌then◌else◌, ◌==◌, nat_eq, or_else,
  Text, text_eq, is_empty, trim,
}
use choschmous_v.Base.Sorting
use choschmous_v.Base.Assoc.{get, put}
use choschmous_v.Base.Decimal.{show}
use choschmous_v.OpenSurvey.Choices.{Control, choice_control_for}
use choschmous_v.OpenSurvey.Options.{Props}

-- `OpenSurveyField`; `value` is `null` while the question is unanswered.
pub record Field : Type 0 where
  pub id : ℕ
  pub field_id : ℕ
  pub organization_id : ℕ
  pub value : Option Text
  pub field_type : Text
  pub label_kh : Text
  pub label_en : Option Text
  pub created_at : Option Text
  pub updated_at : Option Text
  pub options : Option Props
  pub required : Bool
  pub sort_order : ℕ

-- `a.sort_order - b.sort_order || a.field_id - b.field_id` is negative.
abbrev pub before : Field → Field → Bool
before a b =
    ltb a.sort_order b.sort_order || (a.sort_order == b.sort_order && ltb a.field_id b.field_id)

unfoldable pub sort_open_survey_fields : List Field → List Field
sort_open_survey_fields fields = Sorting.sort before fields

-- `field.label_kh || field.label_en || ''`
unfoldable pub resolve_field_label : Field → Text
resolve_field_label f = if is_empty f.label_kh then or_else f.label_en [] else f.label_kh

-- Which of the three messages an unanswered required field shows.
pub data Message : Type 0 where
  required select_one select_at_least_one : Message

abbrev pub message_for : Option Control → Message
message_for none = required
message_for (some Control.checkbox) = select_at_least_one
message_for (some _) = select_one

-- A field's schema: any text, or a text that is not blank, which is trimmed.
pub data Check : Type 0 where
  any_text : Check
  not_blank : Message → Check

abbrev pub check_of : Field → Check
check_of f =
    if f.required then not_blank (message_for (choice_control_for f.field_type)) else any_text

-- The shape of the form's schema: a later field with the same id replaces an earlier one.
abbrev pub shape_from : List (Text × Check) → List Field → List (Text × Check)
shape_from shape [] = shape
shape_from shape (f ∷ fs) = shape_from (put (show f.field_id) (check_of f) shape) fs

unfoldable pub build_open_survey_form_schema : List Field → List (Text × Check)
build_open_survey_form_schema fields = shape_from [] fields

abbrev pub Responses : Type 0
Responses = List (Text × Text)

abbrev pub check_text : Check → Text → Option Text
check_text any_text s = some s
check_text (not_blank m) s = if is_empty (trim s) then none else some (trim s)

abbrev pub check_entry : Check → Option Text → Option Text
check_entry c none = none
check_entry c (some s) = check_text c s

abbrev pub cons_entry : Text → Option Text → Option Responses → Option Responses
cons_entry k (some s) (some out) = some ((k, s) ∷ out)
cons_entry k _ _ = none

-- Parsing the form: every key of the shape is checked, and other keys are dropped.
unfoldable pub parse_responses : List (Text × Check) → Responses → Option Responses
parse_responses [] responses = some []
parse_responses ((k, c) ∷ shape) responses =
    cons_entry k (check_entry c (get k responses)) (parse_responses shape responses)

abbrev pub defaults_from : Responses → List Field → Responses
defaults_from out [] = out
defaults_from out (f ∷ fs) = defaults_from (put (show f.field_id) (or_else f.value []) out) fs

unfoldable pub fields_to_defaults : List Field → Responses
fields_to_defaults fields = defaults_from [] fields

abbrev pub payload_from : Responses → List (ℕ × Option Text) → List Field → List (ℕ × Option Text)
payload_from values out [] = out
payload_from values out (f ∷ fs) =
    payload_from values (put f.field_id (get (show f.field_id) values) out) fs

-- `OpenSurveySubmitPayload`
pub record SubmitPayload : Type 0 where
  pub event_id : ℕ
  pub organization_id : Option ℕ
  pub responses : List (ℕ × Option Text)

unfoldable pub form_values_to_payload : Responses → List Field → ℕ → Option ℕ → SubmitPayload
form_values_to_payload values fields event_id organization_id = record {
  event_id = event_id;
  organization_id = organization_id;
  responses = payload_from values [] fields;
}

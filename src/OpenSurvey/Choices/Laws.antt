-- ===== src/OpenSurvey/Choices/Laws.antt =====
-- The builder's view of a field type is the renderer's, and a selection is read back as it was stored.
use choschmous_v.Base.{
  ◌≡◌, refl, inl, inr, false, not, Option, none, some, List, [], ◌∷◌, map, arith, Bool-cases, ◌==◌,
  nat_eq, is_some, All, filter, Text, codes, text_beq_iff, text_eq, is_empty, trim, to_lower,
}
use choschmous_v.Base.Splitting.Laws.{IsFree, split-join}
use choschmous_v.OpenSurvey.Choices.{
  FieldType, number, Control, InputType, is_choice_field_type, normalize_field_type,
  normalized_type, control_of, input_of, choice_control_for, html_input_type, comma,
  parse_checkbox_selection, join_checkbox_selection,
}

-- The control that a canonical field type is rendered with.
abbrev pub expected_control : FieldType → Option Control
expected_control FieldType.select = some Control.select
expected_control FieldType.radio = some Control.radio
expected_control FieldType.checkbox = some Control.checkbox
expected_control _ = none

abbrev pub expected_input : FieldType → InputType
expected_input number = InputType.number
expected_input _ = InputType.text

abbrev Agrees : Text → Type 0
Agrees t =
    (control_of t ≡ expected_control (normalized_type t))
    × (is_some (control_of t) ≡ is_choice_field_type (normalized_type t))
    × (input_of t ≡ expected_input (normalized_type t))

normalized-Agrees : (t : Text) → Agrees t
unfolding is_choice_field_type
normalized-Agrees t = elim (Bool-cases (t == codes "dropdown")) [
  | inl p ↦ rw ((text_beq_iff t (codes "dropdown")).0 p) (refl, refl, refl)
  | inr not_dropdown ↦ elim (Bool-cases (t == codes "number")) [
    | inl p ↦ rw ((text_beq_iff t (codes "number")).0 p) (refl, refl, refl)
    | inr not_number ↦ elim (Bool-cases (t == codes "select")) [
      | inl p ↦ rw ((text_beq_iff t (codes "select")).0 p) (refl, refl, refl)
      | inr not_select ↦ elim (Bool-cases (t == codes "radio")) [
        | inl p ↦ rw ((text_beq_iff t (codes "radio")).0 p) (refl, refl, refl)
        | inr not_radio ↦ rw (not_dropdown, not_number, not_select, not_radio) (ground arith)
      ]
    ]
  ]
]

-- Whatever string the server stored as a field's type, the builder edits it as the type that the
-- renderer shows: the same choice control, which there is exactly for the types that need options,
-- and the same kind of input.
pub normalize_field_type-agrees :
    (s : Text)
    → (choice_control_for s ≡ expected_control (normalize_field_type s))
      × (is_some (choice_control_for s) ≡ is_choice_field_type (normalize_field_type s))
      × (html_input_type s ≡ expected_input (normalize_field_type s))
unfolding choice_control_for normalize_field_type html_input_type
normalize_field_type-agrees s = normalized-Agrees (to_lower (trim s))

-- A checkbox value that its encoding keeps: trimmed, not empty and free of commas.
abbrev pub IsKey : Text → Type 0
IsKey v = (trim v ≡ v) × (is_empty v ≡ false) × IsFree comma v

kept : (vs : List Text) → All IsKey vs → filter (λ part. not (is_empty part)) (map trim vs) ≡ vs
kept [] h = refl
kept (v ∷ vs) ((t, n, f), h) = rw (t, n, kept vs h)

IsKey-IsFree : (vs : List Text) → All IsKey vs → All (IsFree comma) vs
IsKey-IsFree [] h = tt
IsKey-IsFree (v ∷ vs) ((t, n, f), h) = (f, IsKey-IsFree vs h)

-- A selection of such values, the empty one too, is read back as it was stored.
pub parse-join_checkbox_selection :
    (vs : List Text) → All IsKey vs → parse_checkbox_selection (join_checkbox_selection vs) ≡ vs
unfolding parse_checkbox_selection join_checkbox_selection
parse-join_checkbox_selection [] h = unfold trim in refl
parse-join_checkbox_selection (v ∷ vs) h =
    rw (split-join comma v vs (IsKey-IsFree (v ∷ vs) h)) (kept (v ∷ vs) h)

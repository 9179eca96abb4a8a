-- ===== src/Wizard/Register/Gates.antt =====
-- The tests of the registration's form: the window of the event, and what is asked before a step
-- is left.
use choschmous_v.Base.{
  ℕ, zero, suc, Bool, true, not, ◌&&◌, ◌||◌, Option, none, some, List, [], ◌∷◌, ◌++◌, if◌then◌else◌,
  ◌==◌, nat_eq, or_else, Text, text_eq, is_empty, text_lt,
}
use choschmous_v.Registration.Form.{Input, leader, filled}
use choschmous_v.Wizard.Register.{
  Step, event, category, team, personal, documents, review, step_eq, Field, event_type, event_id,
  organization_id, sport_id, category_id, kh_family_name, kh_given_name, en_family_name,
  en_given_name, gender, date_of_birth, phone, id_document_type, role, nationality, leader_role,
  Surroundings, is_under_18, FormError, team_required, min_not_reached, photo_required,
  birth_certificate_required, national_id_required, WindowError, opens_on, closed_on, closed, State,
  selected_category,
}

-- The fields of an event that the check of the registration's window reads.
pub record Window : Type 0 where
  pub registration_is_open : Option Bool
  pub registration_open_date : Option Text
  pub registration_close_date : Option Text

-- A date, if it is not empty and it passes the test.
abbrev pub date_if : (Text → Bool) → Option Text → Option Text
date_if p none = none
date_if p (some d) = if not (is_empty d) && p d then some d else none

-- `checkWindow`, without an event, or of what the server answers (`none` if it fails), on a day.
unfoldable pub check_window : Option ℕ → Option Window → Text → Option WindowError
check_window none w today = none
check_window (some zero) w today = none
check_window (some (suc n)) none today = none
check_window (some (suc n)) (some w) today =
    if or_else w.registration_is_open true
    then none
    else elim (date_if (λ d. text_lt today d) w.registration_open_date) [
      | some d ↦ some (opens_on d)
      | none ↦ elim (date_if (λ d. text_lt d today) w.registration_close_date) [
        | some d ↦ some (closed_on d)
        | none ↦ some closed
      ]
    ]

-- The errors for a photo, for the birth certificate of somebody under 18, and for the identity card or
-- the passport of anybody else.
abbrev pub missing_documents : (photo under_18 birth_certificate identity : Bool) → List FormError
missing_documents photo under_18 birth_certificate identity =
    (if photo then [] else photo_required ∷ [])
    ++ (if under_18
        then (if birth_certificate then [] else birth_certificate_required ∷ [])
        else if identity
        then []
        else national_id_required ∷ [])

module _ (around : Surroundings) where
  -- The fields to validate before a step is left.
  unfoldable pub fields_to_validate : Input → Step → List Field
  fields_to_validate f event = event_type ∷ event_id ∷ organization_id ∷ sport_id ∷ []
  fields_to_validate f category = category_id ∷ []
  fields_to_validate f personal =
      kh_family_name
      ∷ kh_given_name
      ∷ en_family_name
      ∷ en_given_name
      ∷ gender
      ∷ date_of_birth
      ∷ phone
      ∷ id_document_type
      ∷ role
      ∷ nationality
      ∷ (if f.role == leader then leader_role ∷ [] else [])
  fields_to_validate f team = []
  fields_to_validate f documents = []
  fields_to_validate f review = []

  -- The errors of the step "documents".
  unfoldable pub document_errors : Input → List FormError
  document_errors f =
      missing_documents (filled f.photo_path)
        (is_under_18 around.day_of around.today f.date_of_birth) (filled f.birth_certificate_path)
        (filled f.national_id_path || filled f.passport_path)

  -- `team_size_min ?? 0`
  abbrev pub team_size_min : Input → ℕ
  team_size_min f = elim (selected_category around f) [
    | none ↦ 0
    | some c ↦ or_else c.team_size_min 0
  ]

  -- The errors that keep the user in the current step, or `none` if the fields are not valid.
  unfoldable pub step_errors : State → Step → Option (List FormError)
  unfolding document_errors fields_to_validate
  step_errors s team = elim (s.selected_team) [
    | none ↦ some (team_required ∷ [])
    | some t ↦ some (if s.roster_valid then [] else min_not_reached (team_size_min s.form) ∷ [])
  ]
  step_errors s documents = some (document_errors s.form)
  step_errors s review = some []
  step_errors s event =
      if around.trigger s.form (fields_to_validate s.form event) then some [] else none
  step_errors s category =
      if around.trigger s.form (fields_to_validate s.form category) then some [] else none
  step_errors s personal =
      if around.trigger s.form (fields_to_validate s.form personal) then some [] else none

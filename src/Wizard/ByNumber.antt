-- ===== src/Wizard/ByNumber.antt =====
-- The form of the registration by number (modules/bynumber/components/ByNumberForm.tsx). Its steps are
-- those of the survey's form, and its state has the counts of each sport in place of the sports.
pub mod Laws
use choschmous_v.Base.{
  ℕ, Bool, false, not, ◌||◌, Option, none, some, List, [], ◌∷◌, if◌then◌else◌, ◌==◌, nat_eq, Text,
  text_eq, is_empty,
}
use choschmous_v.Wizard.{Position, handle_step_click, advance, handle_previous_step}
use choschmous_v.Wizard.Survey.{Step, event_type, event, organization, sports, review, step_eq}
use choschmous_v.Survey.Schema.{SportCount}

pub data Field : Type 0 where
  event_id : Field
  organization_id : Field
  sport_counts : Field

pub record Form : Type 0 where
  pub event_id : Option ℕ
  pub organization_id : Option ℕ
  pub sports : List SportCount

abbrev pub default_values : Form
default_values = record { event_id = none; organization_id = none; sports = [] }

pub record State : Type 0 where
  pub position : Position Step
  pub is_success : Bool
  pub selected_event_type : Option Text
  pub sports_loading : Bool
  pub form : Form

-- The effect that loads the sports of an organization at an event, with what the server answers.
unfoldable pub load_sports : Option (List SportCount) → State → State
load_sports answer s = elim (s.form.event_id) [
  | none ↦ s
  | some e ↦ elim (s.form.organization_id) [
    | none ↦ s
    | some o ↦ if e == 0 || o == 0 then s else elim answer [
      | none ↦ record s { sports_loading = false }
      | some xs ↦ record s { sports_loading = false; form = record s.form { sports = xs } }
    ]
  ]
]

-- The fields to validate in a step after the first.
unfoldable pub fields_to_validate : Option Step → List Field
fields_to_validate (some event) = event_id ∷ []
fields_to_validate (some organization) = organization_id ∷ []
fields_to_validate (some sports) = sport_counts ∷ []
fields_to_validate (some event_type) = []
fields_to_validate (some review) = []
fields_to_validate none = []

module _ (steps : List Step) (trigger : Form → List Field → Bool) where
  -- Whether a step may be left.
  abbrev pub check : State → Option Step → Bool
  check s (some event_type) = elim (s.selected_event_type) [
    | none ↦ false
    | some t ↦ not (is_empty t)
  ]
  check s o = trigger s.form (fields_to_validate o)

  unfoldable pub can_proceed : State → Bool
  unfolding fields_to_validate
  can_proceed s = check s s.position.current

  unfoldable pub handle_next : State → State
  unfolding can_proceed advance
  handle_next s = record s { position = advance steps (can_proceed s) s.position }

  unfoldable pub handle_previous : State → State
  unfolding handle_previous_step
  handle_previous s = record s { position = handle_previous_step steps s.position }

  unfoldable pub handle_click : ℕ → State → State
  unfolding handle_step_click
  handle_click i s = record s { position = handle_step_click steps i s.position }

unfoldable pub handle_register_another : State → State
handle_register_another s = record s {
  position = record { current = some event_type; max_reached = 0 };
  is_success = false;
  selected_event_type = none;
  form = default_values;
}

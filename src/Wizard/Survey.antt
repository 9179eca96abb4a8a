-- ===== src/Wizard/Survey.antt =====
-- The survey's form (modules/survey/components/SurveyForm.tsx): its steps, the events of the chosen
-- type, the sports that are chosen already, and its handlers. What `form.trigger` answers for a
-- field is a parameter, since the form library and its resolver are not part of the repository.
pub mod Laws
pub mod Merge
use choschmous_v.Base.{
  ℕ, ◌≡◌, ◌↔◌, Bool, true, false, not, ◌&&◌, Option, none, some, List, [], ◌∷◌, ◌++◌, arith, ltb,
  if◌then◌else◌, Eq, ◌==◌, nat_eq, length, filter, includes, Text, text_eq, is_empty, trim,
}
use choschmous_v.Wizard.{
  Position, go_to_step, handle_step_click, index_of, advance, handle_previous_step,
}
use choschmous_v.Survey.Schema.{Event, Sport}

pub data Step : Type 0 where
  event_type : Step
  event : Step
  organization : Step
  sports : Step
  review : Step

unfoldable pub step_beq : Step → Step → Bool
step_beq event_type event_type = true
step_beq event event = true
step_beq organization organization = true
step_beq sports sports = true
step_beq review review = true
step_beq _ _ = false

pub step_beq_iff : (a b : Step) → (step_beq a b ≡ true) ↔ (a ≡ b)
unfolding step_beq
step_beq_iff a b = ground arith

instance unfoldable pub step_eq : Eq Step
unfolding step_beq
step_eq = record { beq = step_beq; beq_iff = step_beq_iff }

abbrev pub all_form_steps : List Step
all_form_steps = event_type ∷ event ∷ organization ∷ sports ∷ review ∷ []

-- `FORM_STEPS`: only an administrator chooses the organization.
unfoldable pub form_steps : Bool → List Step
unfolding step_beq
form_steps is_admin =
    if not is_admin then filter (λ s. not (s == organization)) all_form_steps else all_form_steps

-- `SurveyFormData`, as the form holds it.
pub record Form : Type 0 where
  pub event_id : Option ℕ
  pub organization_id : Option ℕ
  pub sport_ids : List ℕ

-- The default values, which `form.reset()` restores.
abbrev pub default_values : Form
default_values = record { event_id = none; organization_id = none; sport_ids = [] }

pub record State : Type 0 where
  pub position : Position Step
  pub is_success : Bool
  pub selected_event_type : Option Text
  pub event_sports : List Sport
  pub last_submitted : Option Text
  pub form : Form

-- The state before the effects have run.
abbrev pub initial : State
initial = record {
  position = record { current = some event_type; max_reached = 0 };
  is_success = false;
  selected_event_type = none;
  event_sports = [];
  last_submitted = none;
  form = default_values;
}

-- An organization's own account: its id is in the form from the start.
unfoldable pub mount : Option ℕ → State → State
mount none s = s
mount (some org_id) s =
    if not (org_id == 0)
    then record s { form = record s.form { organization_id = some org_id } }
    else s

-- `EVENT_TYPES.find((t) => t.id === selectedType)?.name_kh` for the list of pairs.
unfoldable pub name_of_type : Text → List (Text × Text) → Option Text
name_of_type t [] = none
name_of_type t ((id, name_kh) ∷ types) = if id == t then some name_kh else name_of_type t types

-- An event is of a type if it names it by its id or by its Khmer name.
unfoldable pub is_of_type : List (Text × Text) → Text → Event → Bool
unfolding name_of_type
is_of_type types selected e =
    if trim e.event_type == trim selected then true else elim (name_of_type (trim selected) types) [
      | none ↦ false
      | some name ↦ not (is_empty name) && (trim e.event_type == trim name)
    ]

unfoldable pub filtered_events : List (Text × Text) → Option Text → List Event → List Event
unfolding is_of_type
filtered_events types none es = []
filtered_events types (some selected) es =
    if is_empty selected then [] else filter (is_of_type types selected) es

-- `new Set(xs)` as a list: the first occurrences.
unfoldable pub unique_from : List ℕ → List ℕ → List ℕ
unique_from seen [] = []
unique_from seen (x ∷ xs) =
    let old = unique_from seen xs in
    let new = x ∷ unique_from (x ∷ seen) xs in if includes seen x then old else new

-- The sports that the organization chose before are added to the selection, and kept only if there
-- are more of them.
unfoldable pub merge_existing : List ℕ → List ℕ → List ℕ
unfolding unique_from
merge_existing current existing =
    let merged = unique_from [] (current ++ existing) in
    if ltb (length current) (length merged) then merged else current

module _ (steps : List Step) (trigger : Form → Step → Bool) where
  -- Whether a step may be left: `form.trigger` of its field, and in the first one a chosen type.
  abbrev pub check : State → Option Step → Bool
  check s none = true
  check s (some event_type) = elim (s.selected_event_type) [
    | none ↦ false
    | some t ↦ not (is_empty t)
  ]
  check s (some event) = trigger s.form event
  check s (some organization) = trigger s.form organization
  check s (some sports) = trigger s.form sports
  check s (some review) = true

  unfoldable pub can_proceed : State → Bool
  can_proceed s = check s s.position.current

  unfoldable pub handle_next : State → State
  unfolding can_proceed advance
  handle_next s = record s { position = advance steps (can_proceed s) s.position }

  unfoldable pub handle_previous : State → State
  unfolding handle_previous_step
  handle_previous s = record s { position = handle_previous_step steps s.position }

  unfoldable pub handle_click : ℕ → State → State
  unfolding handle_step_click
  handle_click i s = record s { position = handle_step_click steps i s.position }

-- Another survey: the last submission's time is left as it is.
unfoldable pub handle_register_another : State → State
handle_register_another s = record s {
  position = record { current = some event_type; max_reached = 0 };
  is_success = false;
  selected_event_type = none;
  event_sports = [];
  form = default_values;
}

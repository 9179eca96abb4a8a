-- ===== src/Wizard/ByCategory.antt =====
-- The form of the survey by category (modules/bycategory/components/ByCategoryForm.tsx).
pub mod Laws
pub mod Previous
use choschmous_v.Base.{
  ℕ, ◌≡◌, ◌↔◌, Bool, true, false, not, ◌&&◌, Option, none, some, List, [], ◌∷◌, arith, ltb,
  if◌then◌else◌, Eq, ◌==◌, nat_eq, or_else, length, Text, text_eq,
}
use choschmous_v.Wizard.{Position, handle_step_click, advance, handle_previous_step}

pub data Step : Type 0 where
  event : Step
  sport : Step
  categories : Step
  review : Step

unfoldable pub step_beq : Step → Step → Bool
step_beq event event = true
step_beq sport sport = true
step_beq categories categories = true
step_beq review review = true
step_beq _ _ = false

pub step_beq_iff : (a b : Step) → (step_beq a b ≡ true) ↔ (a ≡ b)
unfolding step_beq
step_beq_iff a b = ground arith

instance unfoldable pub step_eq : Eq Step
unfolding step_beq
step_eq = record { beq = step_beq; beq_iff = step_beq_iff }

abbrev pub all_form_steps : List Step
all_form_steps = event ∷ sport ∷ categories ∷ review ∷ []

pub data Gender : Type 0 where
  male : Gender
  female : Gender
  mixed : Gender

pub record CategoryRow : Type 0 where
  pub name : Text
  pub gender : Gender

pub record Form : Type 0 where
  pub event_id : Option ℕ
  pub sport_id : Option ℕ
  pub categories : List CategoryRow
  pub previous_categories : List CategoryRow

abbrev pub default_values : Form
default_values = record {
  event_id = none;
  sport_id = none;
  categories = [];
  previous_categories = [];
}

pub record State : Type 0 where
  pub position : Position Step
  pub is_success : Bool
  pub copy_pending : Bool
  pub sport_name : Text
  pub has_previous : Bool
  pub form : Form

abbrev pub initial : State
initial = record {
  position = record { current = some event; max_reached = 0 };
  is_success = false;
  copy_pending = false;
  sport_name = [];
  has_previous = false;
  form = default_values;
}

-- `!!n`
abbrev pub chosen : Option ℕ → Bool
chosen none = false
chosen (some n) = not (n == 0)

-- The rows that the server answers for a sport and an event; `none` if the request fails.
abbrev pub Rows : Type 0
Rows = ℕ → ℕ → Option (List CategoryRow)

-- What the server answers of the sport's earlier categories.
unfoldable pub show_previous : Option (List CategoryRow) → State → State
show_previous none s = record s { has_previous = false }
show_previous (some rows) s = record s {
  has_previous = ltb 0 (length rows);
  form = record s.form { previous_categories = rows };
}

-- The effect that opens the form of a federation: its sport, with the categories of any event.
unfoldable pub open_federation : Rows → ℕ → Text → State → State
unfolding show_previous
open_federation fetch sport_id name s =
    show_previous (fetch sport_id 0)
      (record s { sport_name = name; form = record s.form { sport_id = some sport_id } })

-- The effect of an administrator's choice of an event, if a sport is chosen.
unfoldable pub event_chosen : Rows → Text → State → State
unfolding show_previous
event_chosen fetch name s =
    if chosen s.form.event_id && chosen s.form.sport_id
    then show_previous (fetch (or_else s.form.sport_id 0) (or_else s.form.event_id 0))
        (record s { sport_name = name })
    else s

-- Rows that are copied replace the categories, unless there are none.
abbrev pub copied : Option (List CategoryRow) → Form → Form
copied none f = f
copied (some []) f = f
copied (some (r ∷ rs)) f = record f { categories = r ∷ rs }

-- `handleCopyFromPrevious`. A failing request leaves the form, and its error is not caught.
unfoldable pub handle_copy_from_previous : Rows → State → State
handle_copy_from_previous fetch s =
    if chosen s.form.sport_id
    then record s {
      copy_pending = false;
      form = copied (fetch (or_else s.form.sport_id 0) (or_else s.form.event_id 0)) s.form;
    }
    else record s { copy_pending = false }

module _ (is_admin : Bool) (trigger : Form → Bool) where
  -- Whether the current step may be left; `trigger` validates the categories.
  unfoldable pub can_proceed : State → Bool
  can_proceed s = elim (s.position.current) [
    | none ↦ true
    | some event ↦ chosen s.form.event_id
    | some sport ↦ not (is_admin && not (chosen s.form.sport_id))
    | some categories ↦ trigger s.form
    | some review ↦ true
  ]

  unfoldable pub handle_next : State → State
  unfolding can_proceed advance
  handle_next s = record s { position = advance all_form_steps (can_proceed s) s.position }

unfoldable pub handle_previous : State → State
unfolding handle_previous_step
handle_previous s = record s { position = handle_previous_step all_form_steps s.position }

unfoldable pub handle_click : ℕ → State → State
unfolding handle_step_click
handle_click i s = record s { position = handle_step_click all_form_steps i s.position }

unfoldable pub handle_register_another : State → State
handle_register_another s = record s {
  position = record { current = some event; max_reached = 0 };
  is_success = false;
  sport_name = [];
  has_previous = false;
  form = default_values;
}

-- ===== src/Wizard/Register/Handlers.antt =====
-- The handlers and effects of the registration's form.
use choschmous_v.Base.{
  ℕ, Bool, true, false, not, ◌&&◌, Option, none, some, List, [], ◌∷◌, ◌++◌, ltb, if◌then◌else◌,
  nat_eq, or_else, is_some, length, Text, codes, text_eq,
}
use choschmous_v.Base.Decimal.{show}
use choschmous_v.Base.Padding.{pad_start}
use choschmous_v.Wizard.Register.Gates.{step_errors}
use choschmous_v.Registration.Form.{Input, leader}
use choschmous_v.Wizard.{go_to_step, handle_step_click, index_of, next_index, handle_previous_step}
use choschmous_v.Wizard.Register.{
  Step, event, team, personal, step_eq, Surroundings, FormError, Team, State, form_steps,
  step_index,
}

-- The state in which the form opens.
abbrev pub initial : Bool → Input → State
initial is_leader f = record {
  is_leader = is_leader;
  position = record { current = some event; max_reached = 0 };
  consent = false;
  is_success = false;
  ref_no = [];
  register_window_error = none;
  duplicate_pending = false;
  selected_team = none;
  member_registered = false;
  roster_valid = true;
  form = f;
  errors = [];
}

-- The effect that opens the form of a leader, and of an organization's account.
unfoldable pub initialize : Option Text → State → State
initialize own_organization s =
    let role = if s.is_leader then leader else s.form.role in
    record s {
      form = record s.form {
        role = role;
        organization_id = elim own_organization [ some o ↦ some o | none ↦ s.form.organization_id ];
      };
    }

-- `onChange` of the choice of a team, with the effect that writes the team's id into the form.
unfoldable pub select_team : Option Team → State → State
select_team t s = record s {
  selected_team = t;
  form = record s.form { team_id = elim t [ none ↦ none | some x ↦ some x.id ] };
}

-- With a team the form goes back to it; without one the registration is done.
abbrev pub registered : Option Team → State → State
registered (some t) s = record s {
  member_registered = true;
  position = record s.position { current = some team };
}
registered none s = record s { is_success = true }

-- `handleRegistrationSuccess`
unfoldable pub handle_registration_success : ℕ → State → State
unfolding pad_start
handle_registration_success enroll_id s =
    registered s.selected_team (record s { ref_no = codes "REG-" ++ pad_start 6 (show enroll_id) })

unfoldable pub handle_edit_member : State → State
handle_edit_member s = record s {
  member_registered = false;
  position = record s.position { current = some personal };
}

-- Adding the error to the form's, as `form.setError` does.
abbrev pub set_error : FormError → State → State
set_error e s = record s { errors = e ∷ s.errors }

abbrev pub set_errors : List FormError → State → State
set_errors es s = record s { errors = es ++ s.errors }

-- `handleSubmit` is asked for again with `force`, or the duplicate is not registered.
unfoldable pub answer_duplicate : Bool → State → State
answer_duplicate ok s = record s {
  duplicate_pending = false;
  form = record s.form { force = some ok };
}

module _ (around : Surroundings) where
  unfoldable pub go_to : ℕ → State → State
  unfolding go_to_step form_steps
  go_to i s = record s { position = go_to_step (form_steps around s) i s.position }

  -- The next step, unless the current one is the last.
  unfoldable pub forward : State → State
  unfolding go_to step_index
  forward s =
      let next = next_index (step_index around s) in
      if ltb next (length (form_steps around s)) then go_to next s else s

  -- What an attempt to leave the step answers: the errors are shown, or the next step.
  unfoldable pub leave : Option (List FormError) → State → State
  unfolding forward
  leave none s = s
  leave (some []) s = forward s
  leave (some (e ∷ es)) s = set_errors (e ∷ es) s

  abbrev pub proceed : Option Step → State → State
  proceed none s = forward s
  proceed (some x) s = leave (step_errors around s x) s

  unfoldable pub handle_next : State → State
  unfolding leave step_errors
  handle_next s = proceed s.position.current s

  unfoldable pub handle_back : State → State
  unfolding form_steps handle_previous_step
  handle_back s = record s { position = handle_previous_step (form_steps around s) s.position }

  unfoldable pub handle_click : ℕ → State → State
  unfolding form_steps handle_step_click
  handle_click i s = record s { position = handle_step_click (form_steps around s) i s.position }

  unfoldable pub handle_edit_step : Step → State → State
  unfolding form_steps index_of handle_click
  handle_edit_step x s = elim (index_of (form_steps around s) (some x)) [
    | none ↦ s
    | some i ↦ handle_click i s
  ]

  -- `onAddMember` of the roster.
  unfoldable pub handle_add_member : State → State
  unfolding form_steps index_of go_to
  handle_add_member s =
      let s' = record s { member_registered = false } in
      elim (index_of (form_steps around s) (some personal)) [ none ↦ s' | some i ↦ go_to i s' ]

  -- `setMaxReached(FORM_STEPS.indexOf("personal"))`: every list of steps has that one.
  unfoldable pub handle_register_another : State → State
  unfolding form_steps index_of
  handle_register_another s = record s {
    form = record around.blank {
      event_type = s.form.event_type;
      event_id = s.form.event_id;
      organization_id = s.form.organization_id;
      sport_id = s.form.sport_id;
      category_id = s.form.category_id;
      role = s.form.role;
      team_id = elim (s.selected_team) [ none ↦ none | some t ↦ some t.id ];
    };
    consent = false;
    is_success = false;
    position = record {
      current = some personal;
      max_reached = or_else (index_of (form_steps around s) (some personal)) 0;
    };
  }

  -- The button "next" is enabled.
  unfoldable pub may_press_next : State → Bool
  may_press_next s =
      not (is_some s.register_window_error)
      && (elim (s.position.current) [ some team ↦ s.roster_valid | _ ↦ true ])

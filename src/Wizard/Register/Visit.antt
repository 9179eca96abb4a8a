-- ===== src/Wizard/Register/Visit.antt =====
-- The states that a visit of the registration's form goes through, by the events of the page: what
-- the fields, the buttons, the dialogs and the server's answers call, each in the steps that show it.
use choschmous_v.Base.{ℕ, ◌≡◌, Bool, true, false, Option, some, nat_eq, Text, text_eq}
use choschmous_v.Registration.Form.{Input}
use choschmous_v.Wizard.{is_reachable}
use choschmous_v.Wizard.Register.{
  Step, event, category, team, review, step_eq, Surroundings, Team, WindowError, State, step_index,
}
use choschmous_v.Wizard.Register.Choices.{
  choose_event_type, choose_event, choose_organization, choose_sport, choose_category,
}
use choschmous_v.Wizard.Register.Handlers.{
  initial, initialize, select_team, handle_registration_success, handle_edit_member,
  answer_duplicate, handle_next, handle_back, handle_click, handle_edit_step, handle_add_member,
  handle_register_another, may_press_next,
}

-- A change of the first step's fields.
pub data Choice : (Input → Input) → Type 0 where
  of_event_type : (id : Text) → Choice (choose_event_type id)
  of_event : (id : ℕ) → Choice (choose_event id)
  of_organization : (id : Text) → Choice (choose_organization id)
  of_sport : (id : Option ℕ) → Choice (choose_sport id)

-- Two forms agree on what the first two steps choose, and on the team.
pub record AgreesOnChoices (f g : Input) : Type 0 where
  pub event_id : f.event_id ≡ g.event_id
  pub sport_id : f.sport_id ≡ g.sport_id
  pub category_id : f.category_id ≡ g.category_id
  pub team_id : f.team_id ≡ g.team_id

module _ (around : Surroundings) (is_leader : Bool) where
  pub data Reach : State → Type 0 where
    -- The form opens with its default values, and the effects may restore a draft.
    open_form : (f : Input) (own : Option Text) → Reach (initialize own (initial is_leader f))
    pick :
        {s : State} {change : Input → Input}
        → Choice change
        → s.position.current ≡ some event
        → s.is_success ≡ false
        → Reach s
        → Reach (record s { form = change s.form })
    pick_category :
        {s : State} (id : ℕ)
        → s.position.current ≡ some category
        → s.is_success ≡ false
        → Reach s
        → Reach (record s { form = choose_category id s.form })
    enter :
        {s : State} (f : Input) → AgreesOnChoices f s.form → Reach s → Reach (record s { form = f })
    select :
        {s : State} (t : Team)
        → s.position.current ≡ some team
        → Reach s
        → Reach (select_team (some t) s)
    window :
        {s : State} (w : Option WindowError)
        → Reach s
        → Reach (record s { register_window_error = w })
    consent : {s : State} (b : Bool) → Reach s → Reach (record s { consent = b })
    next : {s : State} → may_press_next around s ≡ true → Reach s → Reach (handle_next around s)
    back : {s : State} → Reach s → Reach (handle_back around s)
    click :
        {s : State} (i : ℕ)
        → is_reachable (step_index around s) i ≡ true
        → Reach s
        → Reach (handle_click around i s)
    edit_step :
        {s : State} (x : Step)
        → s.position.current ≡ some review
        → Reach s
        → Reach (handle_edit_step around x s)
    -- The roster shows these buttons once a team is selected.
    add_member :
        {s : State} {t : Team}
        → s.position.current ≡ some team
        → s.selected_team ≡ some t
        → Reach s
        → Reach (handle_add_member around s)
    edit_member :
        {s : State} {t : Team}
        → s.position.current ≡ some team
        → s.selected_team ≡ some t
        → Reach s
        → Reach (handle_edit_member s)
    -- The form is sent from the review, and the user waits there for the answer.
    duplicate :
        {s : State}
        → s.position.current ≡ some review
        → Reach s
        → Reach (record s { duplicate_pending = true })
    answer : {s : State} (ok : Bool) → Reach s → Reach (answer_duplicate ok s)
    succeed :
        {s : State} (enroll_id : ℕ)
        → s.position.current ≡ some review
        → Reach s
        → Reach (handle_registration_success enroll_id s)
    another : {s : State} → s.is_success ≡ true → Reach s → Reach (handle_register_another around s)

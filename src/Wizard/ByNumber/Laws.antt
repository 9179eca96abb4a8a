-- ===== src/Wizard/ByNumber/Laws.antt =====
-- The form of the registration by number moves as the survey's form does.
use choschmous_v.Base.{
  ℕ, ◌≡◌, refl, sym, ap, ◌∙◌, ◌⊎◌, inl, inr, Bool, true, false, none, some, List, [], map, nat_eq,
  text_eq,
}
use choschmous_v.Wizard.{Position, advance, index_of}
use choschmous_v.Wizard.Survey
use choschmous_v.Wizard.Survey.{
  Step, event_type, event, organization, sports, review, form_steps, step_eq,
}
use choschmous_v.Wizard.ByNumber.{
  Field, Form, State, fields_to_validate, check, can_proceed, handle_next, handle_previous,
  handle_click, handle_register_another,
}

-- The survey's state with the same position and choices.
abbrev pub survey_view : State → Survey.State
survey_view s = record {
  position = s.position;
  is_success = s.is_success;
  selected_event_type = s.selected_event_type;
  event_sports = [];
  last_submitted = none;
  form = record {
    event_id = s.form.event_id;
    organization_id = s.form.organization_id;
    sport_ids = map (λ x. x.sport_id) s.form.sports;
  };
}

-- The two forms' validations agree on the fields of the step `x`.
abbrev pub Agrees : (Form → List Field → Bool) → (Survey.Form → Step → Bool) → State → Step → Type 0
Agrees trigger survey_trigger s x =
    trigger s.form (fields_to_validate (some x)) ≡ survey_trigger (survey_view s).form x

last_stays :
    (is_admin ok : Bool) (p : Position Step)
    → p.current ≡ some review
    → advance (form_steps is_admin) ok p ≡ p
unfolding advance index_of form_steps step_eq
last_stays true ok p h = rw h refl
last_stays false ok p h = rw h refl

module _ (is_admin : Bool) (trigger : Form → List Field → Bool)
    (survey_trigger : Survey.Form → Step → Bool) (s : State) where
  check-agrees :
      (x : Step)
      → (x ≡ review)
        ⊎ (check (form_steps is_admin) trigger s (some x)
            ≡ Survey.check (form_steps is_admin) survey_trigger (survey_view s) (some x))
      → s.position.current ≡ some x
      → (handle_next (form_steps is_admin) trigger s).position
        ≡ (Survey.handle_next (form_steps is_admin) survey_trigger (survey_view s)).position
  unfolding handle_next Survey.handle_next can_proceed Survey.can_proceed
  check-agrees x (inl r) h =
      last_stays is_admin _ s.position (h ∙ ap some r)
      ∙ sym (last_stays is_admin _ s.position (h ∙ ap some r))
  check-agrees x (inr e) h =
      ap (λ ok. advance (form_steps is_admin) ok s.position)
        (ap (check (form_steps is_admin) trigger s) h
          ∙ e
          ∙ sym (ap (Survey.check (form_steps is_admin) survey_trigger (survey_view s)) h))

  check-cases :
      (x : Step)
      → Agrees trigger survey_trigger s x
      → (x ≡ review)
        ⊎ (check (form_steps is_admin) trigger s (some x)
            ≡ Survey.check (form_steps is_admin) survey_trigger (survey_view s) (some x))
  check-cases event_type a = inr refl
  check-cases event a = inr a
  check-cases organization a = inr a
  check-cases sports a = inr a
  check-cases review a = inl refl

-- In every step, where the two forms' validations agree on the step's fields, the buttons and the
-- step indicator of the form by number lead where those of the survey's form lead, and starting over
-- leaves both in the same position with no event type chosen.
pub moves_as_survey :
    (is_admin : Bool) (trigger : Form → List Field → Bool)
    (survey_trigger : Survey.Form → Step → Bool) (s : State) (x : Step) (i : ℕ)
    → s.position.current ≡ some x
    → trigger s.form (fields_to_validate (some x)) ≡ survey_trigger (survey_view s).form x
    → ((handle_next (form_steps is_admin) trigger s).position
        ≡ (Survey.handle_next (form_steps is_admin) survey_trigger (survey_view s)).position)
      × ((handle_previous (form_steps is_admin) trigger s).position
          ≡ (Survey.handle_previous (form_steps is_admin) survey_trigger (survey_view s)).position)
      × ((handle_click (form_steps is_admin) trigger i s).position
          ≡ (Survey.handle_click (form_steps is_admin) survey_trigger i (survey_view s)).position)
      × (survey_view (handle_register_another s) ≡ Survey.handle_register_another (survey_view s))
unfolding handle_previous handle_click handle_register_another Survey.handle_previous
    Survey.handle_click Survey.handle_register_another
moves_as_survey is_admin trigger survey_trigger s x i h a = (
  check-agrees is_admin trigger survey_trigger s x
      (check-cases is_admin trigger survey_trigger s x a) h,
  refl,
  refl,
  refl,
)

-- ===== src/Wizard/ByCategory/Laws.antt =====
-- How the form of the survey by category reaches its review.
use choschmous_v.Base.{
  ℕ, ◌≡◌, refl, inl, inr, Bool, true, ◌&&◌, Option, none, some, List, [], arith, Bool-cases, nat_eq,
  includes, Text, text_eq,
}
use choschmous_v.Wizard.{is_reachable, index_of}
use choschmous_v.Wizard.Moves.{
  IsPlaced, left_by, start-IsPlaced, click-IsPlaced, previous-IsPlaced, advance-IsPlaced,
  earlier_passed,
}
use choschmous_v.Wizard.ByCategory.{
  Step, event, sport, categories, review, step_eq, all_form_steps, Form, State, initial, Rows,
  CategoryRow, chosen, show_previous, open_federation, event_chosen, handle_copy_from_previous,
  can_proceed, handle_next, handle_previous, handle_click, handle_register_another,
}

module _ (is_admin : Bool) (trigger : Form → Bool) where
  -- The states of a visit, with the steps whose check was passed since the form was last started.
  pub data Reach : List Step → State → Type 0 where
    start : Reach [] initial
    federation :
        {log : List Step} {s : State} (fetch : Rows) (sport_id : ℕ) (name : Text)
        → Reach log s
        → Reach log (open_federation fetch sport_id name s)
    chosen_event :
        {log : List Step} {s : State} (fetch : Rows) (name : Text)
        → Reach log s
        → Reach log (event_chosen fetch name s)
    fill :
        {log : List Step} {s : State} (f : Form) → Reach log s → Reach log (record s { form = f })
    copy :
        {log : List Step} {s : State} (fetch : Rows)
        → Reach log s
        → Reach log (handle_copy_from_previous fetch s)
    submit :
        {log : List Step} {s : State} → Reach log s → Reach log (record s { is_success = true })
    next :
        {log : List Step} {s : State}
        → Reach log s
        → Reach
            (left_by (can_proceed is_admin trigger s) s.position.current log)
            (handle_next is_admin trigger s)
    previous : {log : List Step} {s : State} → Reach log s → Reach log (handle_previous s)
    click :
        {log : List Step} {s : State} (i : ℕ)
        → is_reachable (index_of all_form_steps s.position.current) i ≡ true
        → Reach log s
        → Reach log (handle_click i s)
    another : {log : List Step} {s : State} → Reach log s → Reach [] (handle_register_another s)

-- The effects leave the position.
show_previous-position :
    (o : Option (List CategoryRow)) (s : State) → (show_previous o s).position ≡ s.position
unfolding show_previous
show_previous-position none s = refl
show_previous-position (some rows) s = refl

event_chosen-position :
    (fetch : Rows) (name : Text) (s : State) → (event_chosen fetch name s).position ≡ s.position
unfolding event_chosen
event_chosen-position fetch name s =
    elim (Bool-cases (chosen s.form.event_id && chosen s.form.sport_id)) [
      | inl h ↦ rw h (show_previous-position _ (record s { sport_name = name }))
      | inr h ↦ rw h refl
    ]

copy-position :
    (fetch : Rows) (s : State) → (handle_copy_from_previous fetch s).position ≡ s.position
unfolding handle_copy_from_previous
copy-position fetch s = elim (Bool-cases (chosen s.form.sport_id)) [
  | inl h ↦ rw h refl
  | inr h ↦ rw h refl
]

Reach-IsPlaced :
    (is_admin : Bool) (trigger : Form → Bool) {log : List Step} {s : State}
    → Reach is_admin trigger log s
    → IsPlaced all_form_steps log s.position
unfolding handle_next handle_previous handle_click handle_register_another open_federation step_eq
Reach-IsPlaced a g start = start-IsPlaced all_form_steps refl _ refl refl (omega arith)
Reach-IsPlaced a g (federation fetch n name r) =
    rw (show_previous-position (fetch n 0) _) (Reach-IsPlaced a g r)
Reach-IsPlaced a g (chosen_event {s = s} fetch name r) =
    rw (event_chosen-position fetch name s) (Reach-IsPlaced a g r)
Reach-IsPlaced a g (fill f r) = Reach-IsPlaced a g r
Reach-IsPlaced a g (copy {s = s} fetch r) = rw (copy-position fetch s) (Reach-IsPlaced a g r)
Reach-IsPlaced a g (submit r) = Reach-IsPlaced a g r
Reach-IsPlaced a g (next {s = s} r) =
    advance-IsPlaced all_form_steps refl (can_proceed a g s) (Reach-IsPlaced a g r)
Reach-IsPlaced a g (previous r) = previous-IsPlaced all_form_steps refl (Reach-IsPlaced a g r)
Reach-IsPlaced a g (click i h r) = click-IsPlaced all_form_steps refl i h (Reach-IsPlaced a g r)
Reach-IsPlaced a g (another r) = start-IsPlaced all_form_steps refl _ refl refl (omega arith)

-- Whenever a visit of the form by category is at the review, the checks of the event, the sport and
-- the categories were passed since the form was last started, whatever the effects loaded meanwhile.
pub review_of_categories :
    (is_admin : Bool) (trigger : Form → Bool) {log : List Step} {s : State}
    → Reach is_admin trigger log s
    → s.position.current ≡ some review
    → (includes log event ≡ true) × (includes log sport ≡ true) × (includes log categories ≡ true)
unfolding step_eq
review_of_categories a g r c =
    let passed = earlier_passed all_form_steps refl (Reach-IsPlaced a g r) 3 (omega arith) c in
    (
      passed 0 event (omega arith) refl,
      passed 1 sport (omega arith) refl,
      passed 2 categories (omega arith) refl,
    )

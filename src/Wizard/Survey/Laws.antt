-- ===== src/Wizard/Survey/Laws.antt =====
-- How the survey's form reaches its review.
use choschmous_v.Base.{
  ℕ, zero, suc, ◌-◌, ◌<◌, ◌≡◌, refl, ap, ◌⊎◌, inl, inr, Bool, true, false, not, Option, none, some,
  List, [], arith, nat_eq, length, includes, Text, text_eq, is_empty,
}
use choschmous_v.Survey.Schema.{Sport}
use choschmous_v.Wizard.{Position, is_reachable, index_of, get_elem?}
use choschmous_v.Wizard.Moves.{
  IsPlaced, distinct, left_by, start-IsPlaced, click-IsPlaced, previous-IsPlaced, advance-IsPlaced,
  advance_goes, earlier_passed,
}
use choschmous_v.Wizard.Survey.{
  Step, event_type, event, organization, sports, review, step_eq, form_steps, Form, State, initial,
  mount, can_proceed, handle_next, handle_previous, handle_click, handle_register_another,
}

module _ (is_admin : Bool) (trigger : Form → Step → Bool) where
  -- The states of a visit, with the steps whose check was passed since the form was last started. What
  -- the user enters and what the effects write into the form is any form.
  pub data Reach : List Step → State → Type 0 where
    start : (org_id : Option ℕ) → Reach [] (mount org_id initial)
    fill :
        {log : List Step} {s : State} (f : Form) (t : Option Text)
        → Reach log s
        → Reach log (record s { form = f; selected_event_type = t })
    load :
        {log : List Step} {s : State} (xs : List Sport) (last : Option Text)
        → Reach log s
        → Reach log (record s { event_sports = xs; last_submitted = last })
    submit :
        {log : List Step} {s : State} → Reach log s → Reach log (record s { is_success = true })
    next :
        {log : List Step} {s : State}
        → Reach log s
        → Reach
            (left_by (can_proceed (form_steps is_admin) trigger s) s.position.current log)
            (handle_next (form_steps is_admin) trigger s)
    previous :
        {log : List Step} {s : State}
        → Reach log s
        → Reach log (handle_previous (form_steps is_admin) trigger s)
    click :
        {log : List Step} {s : State} (i : ℕ)
        → is_reachable (index_of (form_steps is_admin) s.position.current) i ≡ true
        → Reach log s
        → Reach log (handle_click (form_steps is_admin) trigger i s)
    another : {log : List Step} {s : State} → Reach log s → Reach [] (handle_register_another s)

form_steps-distinct : (is_admin : Bool) → distinct (form_steps is_admin) ≡ true
unfolding form_steps step_eq
form_steps-distinct true = refl
form_steps-distinct false = refl

start_at :
    (is_admin : Bool) (p : Position Step)
    → p ≡ record { current = some event_type; max_reached = 0 }
    → IsPlaced (form_steps is_admin) [] p
unfolding form_steps step_eq
start_at true p h = rw h (start-IsPlaced _ refl _ refl refl (omega arith))
start_at false p h = rw h (start-IsPlaced _ refl _ refl refl (omega arith))

mount-position : (o : Option ℕ) → (mount o initial).position ≡ initial.position
unfolding mount
mount-position none = refl
mount-position (some n) = ground arith

Reach-IsPlaced :
    (is_admin : Bool) (trigger : Form → Step → Bool) {log : List Step} {s : State}
    → Reach is_admin trigger log s
    → IsPlaced (form_steps is_admin) log s.position
unfolding handle_next handle_previous handle_click handle_register_another
Reach-IsPlaced a g (start o) = start_at a _ (mount-position o)
Reach-IsPlaced a g (fill f t r) = Reach-IsPlaced a g r
Reach-IsPlaced a g (load xs l r) = Reach-IsPlaced a g r
Reach-IsPlaced a g (submit r) = Reach-IsPlaced a g r
Reach-IsPlaced a g (next {s = s} r) =
    advance-IsPlaced (form_steps a) (form_steps-distinct a) (can_proceed (form_steps a) g s)
      (Reach-IsPlaced a g r)
Reach-IsPlaced a g (previous r) =
    previous-IsPlaced (form_steps a) (form_steps-distinct a) (Reach-IsPlaced a g r)
Reach-IsPlaced a g (click i h r) =
    click-IsPlaced (form_steps a) (form_steps-distinct a) i h (Reach-IsPlaced a g r)
Reach-IsPlaced a g (another r) = start_at a _ refl

-- Whenever a visit of the survey's form is at the review, the check of every other step (the one of
-- the organization for an administrator) was passed since the form was last started.
pub review_needs_checks :
    (is_admin : Bool) (trigger : Form → Step → Bool) {log : List Step} {s : State}
    → Reach is_admin trigger log s
    → s.position.current ≡ some review
    → (includes log event_type ≡ true)
      × (includes log event ≡ true)
      × ((is_admin ≡ false) ⊎ (includes log organization ≡ true))
      × (includes log sports ≡ true)
unfolding form_steps step_eq
review_needs_checks true g r c =
    let passed =
      earlier_passed (form_steps true) refl (Reach-IsPlaced true g r) 4 (omega arith) c in
    (
      passed 0 event_type (omega arith) refl,
      passed 1 event (omega arith) refl,
      inr (passed 2 organization (omega arith) refl),
      passed 3 sports (omega arith) refl,
    )
review_needs_checks false g r c =
    let passed =
      earlier_passed (form_steps false) refl (Reach-IsPlaced false g r) 3 (omega arith) c in
    (
      passed 0 event_type (omega arith) refl,
      passed 1 event (omega arith) refl,
      inl refl,
      passed 2 sports (omega arith) refl,
    )

-- `n` presses of the button "next".
abbrev pub nexts : (is_admin : Bool) (trigger : Form → Step → Bool) → ℕ → State → State
nexts is_admin trigger zero s = s
nexts is_admin trigger (suc n) s =
    handle_next (form_steps is_admin) trigger (nexts is_admin trigger n s)

module _ (is_admin : Bool) (trigger : Form → Step → Bool) (s : State)
    (chosen : (t : Text) × (s.selected_event_type ≡ some t) × (is_empty t ≡ false))
    (valid : (x : Step) → trigger s.form x ≡ true) where
  can_proceed-at :
      (c : Option Step) (m : ℕ)
      → can_proceed
          (form_steps is_admin)
          trigger
          (record s { position = record { current = c; max_reached = m } })
        ≡ true
  unfolding can_proceed
  can_proceed-at none m = refl
  can_proceed-at (some event_type) m = rw (chosen.1) (ap not (chosen.2))
  can_proceed-at (some event) m = valid event
  can_proceed-at (some organization) m = valid organization
  can_proceed-at (some sports) m = valid sports
  can_proceed-at (some review) m = refl

  nexts_lem :
      (n : ℕ)
      → s.position ≡ record { current = get_elem? (form_steps is_admin) 0; max_reached = 0 }
      → n < length (form_steps is_admin)
      → nexts is_admin trigger n s ≡ record s {
        position = record { current = get_elem? (form_steps is_admin) n; max_reached = n };
      }
  unfolding handle_next
  nexts_lem zero h lt = ap (λ p. record s { position = p }) h
  nexts_lem (suc n) h lt = rw (nexts_lem n h (omega arith)) (
      rw (can_proceed-at _ n) (
        ap (λ p. record s { position = p })
          (advance_goes (form_steps is_admin) (form_steps-distinct is_admin) n lt)))

-- If an event type is chosen and the form's fields are valid, the button "next" leads from the first
-- step through all others to the review, in as many presses as there are steps after the first.
pub nexts_reach_review :
    (is_admin : Bool) (trigger : Form → Step → Bool) (s : State)
    → (t : Text) × (s.selected_event_type ≡ some t) × (is_empty t ≡ false)
    → ((x : Step) → trigger s.form x ≡ true)
    → s.position ≡ record { current = some event_type; max_reached = 0 }
    → (nexts is_admin trigger (length (form_steps is_admin) - 1) s).position.current ≡ some review
unfolding form_steps step_eq
nexts_reach_review true g s t v h =
    ap (λ z. z.position.current) (nexts_lem true g s t v 4 h (omega arith))
nexts_reach_review false g s t v h =
    ap (λ z. z.position.current) (nexts_lem false g s t v 3 h (omega arith))

-- ===== src/Wizard/Register/Safe.antt =====
-- What the moves between the steps of the registration's form leave, and the invariant of a visit.
use choschmous_v.Base.{
  ℕ, ◌≡◌, refl, sym, ap, ◌∙◌, ◌⊎◌, inl, inr, Bool, true, false, not, ◌||◌, Option, none, some, List,
  [], ◌∷◌, ltb, Bool-cases, Option-cases, nat_eq, is_some, length, text_eq,
}
use choschmous_v.Registration.Form.{Input}
use choschmous_v.Wizard.{Position, index_of, next_index}
use choschmous_v.Wizard.Register.{
  Step, personal, Surroundings, Team, FormError, State, category_is_team, form_steps, step_index,
  step_eq,
}
use choschmous_v.Wizard.Register.Gates.{step_errors}
use choschmous_v.Wizard.Register.Handlers.{
  forward, leave, proceed, go_to, handle_next, handle_back, handle_click, handle_edit_step,
  handle_add_member,
}
use choschmous_v.Wizard.Register.Laws.{IsCovered}

-- What the moves between the steps leave.
pub record SameData (s s' : State) : Type 0 where
  is_leader : s'.is_leader ≡ s.is_leader
  is_success : s'.is_success ≡ s.is_success
  selected_team : s'.selected_team ≡ s.selected_team
  roster_valid : s'.roster_valid ≡ s.roster_valid
  form : s'.form ≡ s.form

pub SameData-move :
    (s : State) (p : Position Step) (b : Bool) (es : List FormError)
    → SameData s (record s { position = p; member_registered = b; errors = es })
SameData-move s p b es = record {
  is_leader = refl;
  is_success = refl;
  selected_team = refl;
  roster_valid = refl;
  form = refl;
}

module _ (around : Surroundings) where
  forward-SameData : (s : State) → SameData s (forward around s)
  unfolding forward go_to
  forward-SameData s =
      elim (Bool-cases (ltb (next_index (step_index around s)) (length (form_steps around s)))) [
        | inl more ↦ rw more (SameData-move s _ _ _)
        | inr last ↦ rw last (SameData-move s _ _ _)
      ]

  leave-SameData : (o : Option (List FormError)) (s : State) → SameData s (leave around o s)
  unfolding leave
  leave-SameData none s = SameData-move s _ _ _
  leave-SameData (some []) s = forward-SameData s
  leave-SameData (some (e ∷ es)) s = SameData-move s _ _ _

  proceed-SameData : (o : Option Step) (s : State) → SameData s (proceed around o s)
  proceed-SameData none s = forward-SameData s
  proceed-SameData (some x) s = leave-SameData (step_errors around s x) s

  pub handle_next-SameData : (s : State) → SameData s (handle_next around s)
  unfolding handle_next
  handle_next-SameData s = proceed-SameData s.position.current s

  pub handle_back-SameData : (s : State) → SameData s (handle_back around s)
  unfolding handle_back
  handle_back-SameData s = SameData-move s _ _ _

  pub handle_click-SameData : (s : State) (i : ℕ) → SameData s (handle_click around i s)
  unfolding handle_click
  handle_click-SameData s i = SameData-move s _ _ _

  pub handle_edit_step-SameData : (s : State) (x : Step) → SameData s (handle_edit_step around x s)
  unfolding handle_edit_step handle_click
  handle_edit_step-SameData s x = elim (Option-cases (index_of (form_steps around s) (some x))) [
    | inl q ↦ rw (q, handle_edit_step) (SameData-move s _ _ _)
    | inr (i, q) ↦ rw (q, handle_edit_step) (SameData-move s _ _ _)
  ]

  pub handle_add_member-SameData : (s : State) → SameData s (handle_add_member around s)
  unfolding handle_add_member go_to
  handle_add_member-SameData s =
      elim (Option-cases (index_of (form_steps around s) (some personal))) [
        | inl q ↦ rw (q, handle_add_member) (SameData-move s _ _ _)
        | inr (i, q) ↦ rw (q, handle_add_member) (SameData-move s _ _ _)
      ]

  pub record IsSafe (is_leader : Bool) (s : State) : Type 0 where
    pub mode : s.is_leader ≡ is_leader
    pub covered : IsCovered around s
    pub synced : (t : Team) → s.selected_team ≡ some t → s.form.team_id ≡ some t.id
    pub finished :
        (s.is_success ≡ false)
        ⊎ ((s.is_leader || not (category_is_team around s.form) || is_some s.selected_team) ≡ true)
    pub roster : s.roster_valid ≡ true

  finished_after :
      (s s' : State)
      → SameData s s'
      → (s.is_success ≡ false)
        ⊎ ((s.is_leader || not (category_is_team around s.form) || is_some s.selected_team) ≡ true)
      → (s'.is_success ≡ false)
        ⊎ ((s'.is_leader || not (category_is_team around s'.form) || is_some s'.selected_team)
            ≡ true)
  finished_after s s' m (inl h) = inl (m.is_success ∙ h)
  finished_after s s' m (inr h) = inr (rw (m.is_leader, m.selected_team, m.form) h)

  pub moved :
      {l : Bool} (s s' : State) → SameData s s' → IsCovered around s' → IsSafe l s → IsSafe l s'
  moved s s' m c w = record {
    mode = m.is_leader ∙ w.mode;
    covered = c;
    synced = λ t q. ap Input.team_id m.form ∙ w.synced t (sym m.selected_team ∙ q);
    finished = finished_after s s' m w.finished;
    roster = m.roster_valid ∙ w.roster;
  }

-- ===== src/Wizard/Register/Laws.antt =====
-- What a visit of the registration's form keeps.
use choschmous_v.Base.{
  ℕ, zero, suc, ◌≡◌, refl, ap, subst, ◌≢◌, ◌⊎◌, inl, inr, Bool, true, false, not, ◌||◌, Option,
  none, some, List, [], ◌∷◌, arith, ltb, Bool-cases, Option-cases, is_some, length,
}
use choschmous_v.Wizard.{
  Position, get_elem?, go_to_step, handle_step_click, next_index, is_reachable, index_from,
  index_of, handle_previous_step,
}
use choschmous_v.Wizard.Register.{
  Step, event, category, team, personal, documents, review, step_eq, Surroundings, FormError, State,
  team_steps, category_is_team, form_steps, step_index,
}
use choschmous_v.Wizard.Register.Gates.{step_errors}
use choschmous_v.Wizard.Register.Handlers.{
  forward, leave, proceed, go_to, handle_next, handle_back, handle_click, handle_edit_step,
  handle_add_member,
}

-- The steps after the choice of the team.
abbrev pub late : Option Step → Bool
late (some personal) = true
late (some documents) = true
late (some review) = true
late (some team) = false
late (some event) = false
late (some category) = false
late none = false

forward-late :
    (c : Option Step)
    → c ≢ some team
    → late (get_elem? team_steps (next_index (index_of team_steps c))) ≡ true
    → late c ≡ true
unfolding index_of index_from step_eq
forward-late none n h = h
forward-late (some event) n h = h
forward-late (some category) n h = h
forward-late (some team) n h = absurd (n refl)
forward-late (some personal) n h = refl
forward-late (some documents) n h = refl
forward-late (some review) n h = refl

previous-late :
    (c : Option Step) (m : ℕ)
    → late (handle_previous_step team_steps (record { current = c; max_reached = m })).current
      ≡ true
    → late c ≡ true
unfolding handle_previous_step index_of step_eq
previous-late none m h = h
previous-late (some event) m h = h
previous-late (some category) m h = h
previous-late (some team) m h = h
previous-late (some personal) m h = refl
previous-late (some documents) m h = refl
previous-late (some review) m h = refl

click-late :
    (c : Option Step) (m i : ℕ)
    → is_reachable (index_of team_steps c) i ≡ true
    → late (handle_step_click team_steps i (record { current = c; max_reached = m })).current ≡ true
    → late c ≡ true
unfolding index_of handle_step_click is_reachable step_eq
click-late none m i r h = absurd (cc r)
click-late (some event) m zero r h = ground arith
click-late (some event) m (suc i) r h = absurd (ground arith)
click-late (some category) m zero r h = ground arith
click-late (some category) m (suc zero) r h = ground arith
click-late (some category) m (suc (suc i)) r h = absurd (ground arith)
click-late (some team) m zero r h = ground arith
click-late (some team) m (suc zero) r h = ground arith
click-late (some team) m (suc (suc zero)) r h = ground arith
click-late (some team) m (suc (suc (suc i))) r h = absurd (ground arith)
click-late (some personal) m i r h = refl
click-late (some documents) m i r h = refl
click-late (some review) m i r h = refl

module _ (around : Surroundings) where
  -- An athlete of a team category is past the choice of the team only with a team.
  abbrev pub IsCovered : State → Type 0
  IsCovered s =
      (s.is_leader
        || not (category_is_team around s.form)
        || not (late s.position.current)
        || is_some s.selected_team)
      ≡ true

  cover :
      (s : State) (p : Position Step)
      → IsCovered s
      → (form_steps around s ≡ team_steps
          → s.selected_team ≡ none
          → late p.current ≡ true
          → late s.position.current ≡ true)
      → IsCovered (record s { position = p })
  unfolding form_steps
  cover s p c k = elim (Bool-cases s.is_leader) [
    | inl l ↦ rw l refl
    | inr l ↦ elim (Bool-cases (category_is_team around s.form)) [
      | inr t ↦ ground arith
      | inl t ↦ elim (Option-cases s.selected_team) [
        | inr (x, q) ↦ ground arith
        | inl q ↦ elim (Bool-cases (late p.current)) [
          | inr e ↦ ground arith
          | inl e ↦ let old = k (ground arith) q e in ground arith
        ]
      ]
    ]
  ]

  unchosen :
      (s : State)
      → (s.position.current ≢ some team) ⊎ (is_some s.selected_team ≡ true)
      → s.selected_team ≡ none
      → s.position.current ≢ some team
  unchosen s (inl n) q = n
  unchosen s (inr h) q = absurd (cc (ap is_some q))

  forward-IsCovered :
      (s : State)
      → IsCovered s
      → (s.position.current ≢ some team) ⊎ (is_some s.selected_team ≡ true)
      → IsCovered (forward around s)
  unfolding forward go_to go_to_step step_index
  forward-IsCovered s c k =
      elim (Bool-cases (ltb (next_index (step_index around s)) (length (form_steps around s)))) [
        | inr last ↦ rw last c
        | inl more ↦ rw more (
            cover s (go_to_step (form_steps around s) (next_index (step_index around s)) s.position)
              c
              λ q chosen l. forward-late s.position.current (unchosen s k chosen) (
                subst
                  (λ st. late (get_elem? st (next_index (index_of st s.position.current))) ≡ true) q
                  l))
      ]

  pub handle_back-IsCovered : (s : State) → IsCovered s → IsCovered (handle_back around s)
  unfolding handle_back
  handle_back-IsCovered s c =
      cover s (handle_previous_step (form_steps around s) s.position) c λ q chosen l.
        previous-late s.position.current s.position.max_reached
          (subst (λ st. late (handle_previous_step st s.position).current ≡ true) q l)

  pub handle_click-IsCovered :
      (s : State) (i : ℕ)
      → is_reachable (step_index around s) i ≡ true
      → IsCovered s
      → IsCovered (handle_click around i s)
  unfolding handle_click step_index
  handle_click-IsCovered s i r c =
      cover s (handle_step_click (form_steps around s) i s.position) c λ q chosen l.
        click-late s.position.current s.position.max_reached i
          (subst (λ st. is_reachable (index_of st s.position.current) i ≡ true) q r)
          (subst (λ st. late (handle_step_click st i s.position).current ≡ true) q l)

  -- From a step past the choice of the team, and with a team from any, one may go anywhere.
  pub from_late-IsCovered :
      (s : State) (p : Position Step)
      → (late s.position.current ≡ true) ⊎ (is_some s.selected_team ≡ true)
      → IsCovered s
      → IsCovered (record s { position = p })
  from_late-IsCovered s p (inl h) c = cover s p c (λ q chosen l. h)
  from_late-IsCovered s p (inr h) c = cover s p c (λ q chosen l. absurd (cc (ap is_some chosen)))

  leave_with :
      (s : State) (o : Option (List FormError))
      → (o ≡ some [] → (s.position.current ≢ some team) ⊎ (is_some s.selected_team ≡ true))
      → IsCovered s
      → IsCovered (leave around o s)
  unfolding leave
  leave_with s none k c = c
  leave_with s (some []) k c = forward-IsCovered s c (k refl)
  leave_with s (some (e ∷ es)) k c = c

  passed_team : (s : State) → step_errors around s team ≡ some [] → is_some s.selected_team ≡ true
  unfolding step_errors
  passed_team s h = elim (Option-cases s.selected_team) [
    | inr (t, q) ↦ ap is_some q
    | inl q ↦ ground arith
  ]

  leave-IsCovered :
      (s : State) (x : Step)
      → s.position.current ≡ some x
      → IsCovered s
      → IsCovered (leave around (step_errors around s x) s)
  leave-IsCovered s team h c =
      leave_with s (step_errors around s team) (λ q. inr (passed_team s q)) c
  leave-IsCovered s event h c = leave_with s _ (λ q. inl (λ e. ground arith)) c
  leave-IsCovered s category h c = leave_with s _ (λ q. inl (λ e. ground arith)) c
  leave-IsCovered s personal h c = leave_with s _ (λ q. inl (λ e. ground arith)) c
  leave-IsCovered s documents h c = leave_with s _ (λ q. inl (λ e. ground arith)) c
  leave-IsCovered s review h c = leave_with s _ (λ q. inl (λ e. ground arith)) c

  proceed-IsCovered :
      (s : State) (o : Option Step)
      → s.position.current ≡ o
      → IsCovered s
      → IsCovered (proceed around o s)
  proceed-IsCovered s none q c = forward-IsCovered s c (inl (λ e. ground arith))
  proceed-IsCovered s (some x) q c = leave-IsCovered s x q c

  pub handle_next-IsCovered : (s : State) → IsCovered s → IsCovered (handle_next around s)
  unfolding handle_next
  handle_next-IsCovered s c = proceed-IsCovered s s.position.current refl c

  pub handle_edit_step-IsCovered :
      (s : State) (x : Step)
      → s.position.current ≡ some review
      → IsCovered s
      → IsCovered (handle_edit_step around x s)
  unfolding handle_edit_step handle_click
  handle_edit_step-IsCovered s x h c = edited (index_of (form_steps around s) (some x))
    where
      edited : (o : Option ℕ) → IsCovered (elim o [ none ↦ s | some i ↦ handle_click around i s ])
      edited none = c
      edited (some i) =
          from_late-IsCovered s (handle_step_click (form_steps around s) i s.position)
            (inl (ap late h)) c

  pub handle_add_member-IsCovered :
      (s : State)
      → is_some s.selected_team ≡ true
      → IsCovered s
      → IsCovered (handle_add_member around s)
  unfolding handle_add_member go_to
  handle_add_member-IsCovered s h c = added (index_of (form_steps around s) (some personal))
    where
      added :
          (o : Option ℕ)
          → IsCovered (elim o [
            | none ↦ record s { member_registered = false }
            | some i ↦ go_to around i (record s { member_registered = false })
          ])
      added none = c
      added (some i) =
          from_late-IsCovered (record s { member_registered = false })
            (go_to_step (form_steps around (record s { member_registered = false })) i s.position)
            (inr h) c

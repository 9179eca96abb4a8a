-- ===== src/Organizers/Laws.antt =====
-- What the page sends.
use choschmous_v.Base.{
  ◌≡◌, Bool, true, false, not, ◌&&◌, Option, List, nat_eq, All, Any, Text, text_eq, is_empty,
}
use choschmous_v.Organizers.{
  Step, event, personal, role, review, Payload, State, number_or_null, can_proceed_personal, Event,
  choose_event, choose_role,
}

module _ {Num : Type 0} (number_of : Text → Num) where
  abbrev pub IsFilled : Text → Type 0
  IsFilled t = is_empty t ≡ false

  -- A payload with the number of an event that was chosen, that of a role that was chosen, and every
  -- required field of the person filled in; from an organization's account, with the organization that
  -- the account is bound to. `log` are the events on the page.
  pub record IsComplete (log : List (Event number_of)) (is_organization : Bool) (own : Option Text)
      (p : Payload number_of) : Type 0 where
    pub event_id :
        (t : Text) × IsFilled t × Any (λ e. e ≡ choose_event t) log × (p.event_id ≡ number_of t)
    pub organizer_role_id :
        (t : Text) × IsFilled t
        × Any (λ e. e ≡ choose_role t) log
        × (p.organizer_role_id ≡ number_of t)
    pub kh_family_name : IsFilled p.person.kh_family_name
    pub kh_given_name : IsFilled p.person.kh_given_name
    pub en_family_name : IsFilled p.person.en_family_name
    pub en_given_name : IsFilled p.person.en_given_name
    pub gender : IsFilled p.person.gender
    pub date_of_birth : IsFilled p.person.date_of_birth
    pub phone : IsFilled p.person.phone
    pub organization_id : is_organization ≡ true → p.organization_id ≡ number_or_null number_of own

  -- The checks of the steps before this one hold.
  abbrev passed : State number_of → Step → Bool
  passed s event = true
  passed s personal = not (is_empty s.event_id)
  passed s role = not (is_empty s.event_id) && can_proceed_personal number_of s.person
  passed s review =
      not (is_empty s.event_id)
      && can_proceed_personal number_of s.person
      && not (is_empty s.organizer_role_id)

  abbrev WasChosen : List (Event number_of) → (Text → Event number_of) → Text → Type 0
  WasChosen log f t = is_empty t ≡ false → Any (λ e. e ≡ f t) log

  record IsGuarded (log : List (Event number_of)) (is_organization : Bool) (own : Option Text)
      (s : State number_of) : Type 0 where
    event_id : WasChosen log choose_event s.event_id
    role_id : WasChosen log choose_role s.organizer_role_id
    before : passed s s.step ≡ true
    bound : is_organization ≡ true → s.org_id ≡ own
    sent : All (IsComplete log is_organization own) s.sent

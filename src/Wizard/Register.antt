-- ===== src/Wizard/Register.antt =====
-- The registration's form (modules/registration/components/RegisterForm.tsx): its steps, which
-- depend on the chosen category, its state, and the tests that its handlers make.
pub mod Choices
pub mod Gates
pub mod Handlers
pub mod Visit
pub mod Laws
pub mod Safe
pub mod TeamChoice
pub mod Documents
mod Tests
use choschmous_v.Base.{
  ℕ, ◌+◌, ◌≡◌, ◌↔◌, Bool, true, false, ◌&&◌, ◌||◌, Option, none, some, List, [], ◌∷◌, arith, ltb,
  if◌then◌else◌, Eq, ◌==◌, nat_eq, or_else, Text, text_eq, is_empty,
}
use choschmous_v.Wizard.{Position, index_of}
use choschmous_v.Registration.Form.{Input, truthy}

-- `BaseStep`
pub data Step : Type 0 where
  event : Step
  category : Step
  team : Step
  personal : Step
  documents : Step
  review : Step

unfoldable pub step_beq : Step → Step → Bool
step_beq event event = true
step_beq category category = true
step_beq team team = true
step_beq personal personal = true
step_beq documents documents = true
step_beq review review = true
step_beq _ _ = false

pub step_beq_iff : (a b : Step) → (step_beq a b ≡ true) ↔ (a ≡ b)
unfolding step_beq
step_beq_iff a b = ground arith

instance unfoldable pub step_eq : Eq Step
unfolding step_beq
step_eq = record { beq = step_beq; beq_iff = step_beq_iff }

-- `BASE_STEPS` of a leader and of an athlete, and the steps of a team category.
abbrev pub leader_steps : List Step
leader_steps = event ∷ personal ∷ documents ∷ review ∷ []

abbrev pub athlete_steps : List Step
athlete_steps = event ∷ category ∷ personal ∷ documents ∷ review ∷ []

abbrev pub team_steps : List Step
team_steps = event ∷ category ∷ team ∷ personal ∷ documents ∷ review ∷ []

-- The fields of `CategoryReference` that the form reads.
pub record Category : Type 0 where
  pub id : ℕ
  pub team_size_min : Option ℕ
  pub team_size_max : Option ℕ

-- The fields of the form that `form.trigger` is asked to validate.
pub data Field : Type 0 where
  event_type : Field
  event_id : Field
  organization_id : Field
  sport_id : Field
  category_id : Field
  kh_family_name : Field
  kh_given_name : Field
  en_family_name : Field
  en_given_name : Field
  gender : Field
  date_of_birth : Field
  phone : Field
  id_document_type : Field
  role : Field
  nationality : Field
  leader_role : Field

-- A day of the calendar.
pub record Day : Type 0 where
  pub year : ℕ
  pub month : ℕ
  pub date : ℕ

-- What the form uses of its surroundings: the categories of an event and a sport, as the query has them
-- once they are loaded (while they load the list is empty, which is not part of the model), `form.trigger`, `new Date(s)` (`none` if it is invalid), the present day, and what
-- `form.reset` with some of the values leaves in the others.
pub record Surroundings : Type 0 where
  pub categories_of : Option ℕ → Option ℕ → List Category
  pub trigger : Input → List Field → Bool
  pub day_of : Text → Option Day
  pub today : Day
  pub blank : Input

-- `isUnder18`. A difference of years below 18 is one of less than 18 years, and below 19 if the
-- birthday of this year is still to come.
unfoldable pub is_under_18 : (Text → Option Day) → Day → Text → Bool
is_under_18 day_of today s = if is_empty s then false else elim (day_of s) [
  | none ↦ false
  | some born ↦
      if ltb today.month born.month || (today.month == born.month && ltb today.date born.date)
      then ltb today.year (born.year + 19)
      else ltb today.year (born.year + 18)
]

-- The error messages that the handlers set.
pub data FormError : Type 0 where
  team_required : FormError
  min_not_reached : (min : ℕ) → FormError
  photo_required : FormError
  birth_certificate_required : FormError
  national_id_required : FormError

-- The fields of `TeamItem` that the form reads.
pub record Team : Type 0 where
  pub id : ℕ

-- `registerWindowError`, by its message.
pub data WindowError : Type 0 where
  opens_on : Text → WindowError
  closed_on : Text → WindowError
  closed : WindowError

pub record State : Type 0 where
  pub is_leader : Bool
  pub position : Position Step
  pub consent : Bool
  pub is_success : Bool
  pub ref_no : Text
  pub register_window_error : Option WindowError
  pub duplicate_pending : Bool
  pub selected_team : Option Team
  pub member_registered : Bool
  pub roster_valid : Bool
  pub form : Input
  pub errors : List FormError

unfoldable pub find_category : ℕ → List Category → Option Category
find_category id [] = none
find_category id (c ∷ cs) = if c.id == id then some c else find_category id cs

module _ (around : Surroundings) where
  -- `selectedCategory`: `Number(null)` is 0, and the list is empty without an event and a sport.
  unfoldable pub selected_category : Input → Option Category
  unfolding find_category
  selected_category f =
      if truthy f.event_id && truthy f.sport_id
      then find_category (or_else f.category_id 0) (around.categories_of f.event_id f.sport_id)
      else none

  -- `(selectedCategory?.team_size_max ?? 1) > 1`
  unfoldable pub category_is_team : Input → Bool
  unfolding selected_category
  category_is_team f = elim (selected_category f) [
    | none ↦ false
    | some c ↦ elim (c.team_size_max) [ none ↦ false | some n ↦ ltb 1 n ]
  ]

  -- `FORM_STEPS`
  unfoldable pub form_steps : State → List Step
  unfolding category_is_team
  form_steps s =
      if s.is_leader
      then leader_steps
      else if category_is_team s.form
      then team_steps
      else athlete_steps

  -- `stepIndex`
  unfoldable pub step_index : State → Option ℕ
  unfolding form_steps index_of
  step_index s = index_of (form_steps s) s.position.current

-- ===== src/Sports.antt =====
-- The form of a category of a sport (frontend/src/modules/sports): its first values
-- (components/CategoryForm.tsx), its schema (schema/sports.schema.ts) and what is sent of it
-- (mappers/sports.mapper.ts). A field that is missing and one that is `null` are read alike. `Number(s)`
-- is a parameter: the natural number that it gives, and `none` for every other number.
pub mod Participants
pub mod Laws
mod Tests
use choschmous_v.Base.Options.{◌>>=◌}
use choschmous_v.Base.{
  ℕ, Option, none, some, ltb, leb, if◌then◌else◌, ◌==◌, nat_eq, or_else, length, Text, codes,
  text_eq, is_empty, to_lower,
}

pub data Gender : Type 0 where
  male : Gender
  female : Gender
  other : Gender

pub data CategoryType : Type 0 where
  individual : CategoryType
  team : CategoryType

-- What an input for a number holds.
pub data Field : Type 0 where
  missing : Field
  number : ℕ → Field
  typed : Text → Field

abbrev pub gender_value : Gender → Text
gender_value male = codes "male"
gender_value female = codes "female"
gender_value other = codes "other"

-- The values of the form as its inputs hold them, and as its schema gives them.
pub record Inputs : Type 0 where
  pub category : Text
  pub gender : Option Text
  pub category_type : CategoryType
  pub team_size_min : Field
  pub team_size_max : Field

pub record Values : Type 0 where
  pub category : Text
  pub gender : Option Gender
  pub category_type : CategoryType
  pub team_size_min : Option ℕ
  pub team_size_max : Option ℕ

-- `Category`, without the fields that the form does not read.
pub record Category : Type 0 where
  pub id : ℕ
  pub category : Text
  pub gender : Option Gender
  pub team_size_min : Option ℕ
  pub team_size_max : Option ℕ

-- `AddCategoryBody`
pub record Body : Type 0 where
  pub sport_id : ℕ
  pub category : Text
  pub gender : Option Gender
  pub team_size_min : Option ℕ
  pub team_size_max : Option ℕ

-- `val.toLowerCase()` as a member of `Gender`.
abbrev pub as_gender : Text → Option Gender
as_gender s =
    if s == codes "male"
    then some male
    else if s == codes "female"
    then some female
    else if s == codes "other"
    then some other
    else none

abbrev pub allowed : {A : Type 0} → Option A → Option (Option A)
allowed none = none
allowed (some a) = some (some a)

-- `genderSchema`: `none` where it rejects.
unfoldable pub gender_schema : Option Text → Option (Option Gender)
gender_schema none = some none
gender_schema (some s) = allowed (as_gender (to_lower s))

-- `z.number().int().min(1)`
abbrev pub positive : Option ℕ → Option (Option ℕ)
positive none = none
positive (some n) = if leb 1 n then some (some n) else none

module _ (number_of : Text → Option ℕ) where
  -- `teamSizeField`
  unfoldable pub team_size_field : Field → Option (Option ℕ)
  team_size_field missing = some none
  team_size_field (number n) = positive (some n)
  team_size_field (typed s) = if is_empty s then some none else positive (number_of s)

  -- The fields of `categoryFormSchema` that it converts.
  unfoldable pub converted : Inputs → Option Values
  unfolding gender_schema team_size_field
  converted i = do
    gender ← gender_schema i.gender
    least ← team_size_field i.team_size_min
    most ← team_size_field i.team_size_max
    some (record {
      category = i.category;
      gender = gender;
      category_type = i.category_type;
      team_size_min = least;
      team_size_max = most;
    })

  -- `categoryFormSchema`
  unfoldable pub category_form_schema : Inputs → Option Values
  unfolding converted
  category_form_schema i = if leb 2 (length i.category) then converted i else none

-- `isTeam ? size ?? null : null`
abbrev pub team_size : CategoryType → Option ℕ → Option ℕ
team_size individual size = none
team_size team size = size

unfoldable pub form_data_to_add_category : ℕ → Values → Body
form_data_to_add_category sport v = record {
  sport_id = sport;
  category = v.category;
  gender = v.gender;
  team_size_min = team_size v.category_type v.team_size_min;
  team_size_max = team_size v.category_type v.team_size_max;
}

-- The id of the category, and the rest of the body.
unfoldable pub form_data_to_update_category : ℕ → ℕ → Values → ℕ × Body
form_data_to_update_category id sport v = (
  id,
  record {
    sport_id = sport;
    category = v.category;
    gender = v.gender;
    team_size_min = team_size v.category_type v.team_size_min;
    team_size_max = team_size v.category_type v.team_size_max;
  },
)

abbrev pub field_of : Option ℕ → Field
field_of none = missing
field_of (some n) = number n

-- `(category.team_size_max ?? 1) > 1 ? 'team' : 'individual'`
abbrev pub type_of : Option ℕ → CategoryType
type_of size = if ltb 1 (or_else size 1) then team else individual

abbrev pub gender_text : Option Gender → Option Text
gender_text none = none
gender_text (some g) = some (gender_value g)

-- `defaultValues` of a category that is edited.
unfoldable pub default_values : Category → Inputs
default_values c = record {
  category = c.category;
  gender = gender_text c.gender;
  category_type = type_of c.team_size_max;
  team_size_min = field_of c.team_size_min;
  team_size_max = field_of c.team_size_max;
}

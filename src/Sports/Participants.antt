-- ===== src/Sports/Participants.antt =====
-- The participants of a category (modules/sports/components/CategoryParticipants.tsx): their ages, the
-- filters and the summary. `new Date(s)`, `Number(s)` and the comparison of a number with an age are
-- parameters, and so is the day that it is.
pub mod Laws
mod Tests
use choschmous_v.Base.{
  ℕ, zero, suc, ◌-◌, Bool, true, false, not, ◌&&◌, ◌||◌, Option, none, some, List, [], ◌++◌, ltb,
  leb, if◌then◌else◌, ◌==◌, nat_eq, length, filter, Text, codes, text_eq, is_empty,
}
use choschmous_v.Base.Decimal.{show}

-- Integers over the native numbers: `pos n` is n, and `negsuc n` is -(n + 1).
pub data ℤ : Type 0 where
  pos : ℕ → ℤ
  negsuc : ℕ → ℤ

-- The local year, month and day of a date.
pub record Day : Type 0 where
  pub year : ℕ
  pub month : ℕ
  pub day : ℕ

-- `m - n`
abbrev pub minus : ℕ → ℕ → ℤ
minus m n = if leb n m then pos (m - n) else negsuc (n - m - 1)

abbrev pub pred : ℤ → ℤ
pred (pos zero) = negsuc zero
pred (pos (suc n)) = pos n
pred (negsuc n) = negsuc (suc n)

-- The birthday of this year is still to come: `m < 0 || (m === 0 && now.getDate() < d.getDate())`.
abbrev pub is_ahead : Day → Day → Bool
is_ahead now d = ltb now.month d.month || (now.month == d.month && ltb now.day d.day)

unfoldable pub age_at : Day → Day → ℤ
age_at now d = let years = minus now.year d.year in if is_ahead now d then pred years else years

pub data Role : Type 0 where
  athlete : Role
  leader : Role

pub data TypeFilter : Type 0 where
  all : TypeFilter
  only : Role → TypeFilter

abbrev pub is_role : Role → Role → Bool
is_role athlete athlete = true
is_role leader leader = true
is_role _ _ = false

-- `SportParticipant`, without the fields that are only shown.
pub record Participant : Type 0 where
  pub participant_id : ℕ
  pub gender : Text
  pub date_of_birth : Option Text
  pub role : Role
  pub event_id : Option ℕ
  pub organization_id : Option ℕ
  pub category_id : Option ℕ

pub record Runtime : Type 1 where
  pub Num : Type 0
  pub number_of : Text → Num
  pub is_below : ℤ → Num → Bool
  pub is_above : ℤ → Num → Bool
  pub date_of : Text → Option Day

pub record Filters : Type 0 where
  pub type_filter : TypeFilter
  pub event_filter : Text
  pub org_filter : Text
  pub age_min : Text
  pub age_max : Text

abbrev pub reset_filters : Filters
reset_filters = record {
  type_filter = all;
  event_filter = [];
  org_filter = [];
  age_min = [];
  age_max = [];
}

-- `String(id ?? '')`
abbrev pub id_text : Option ℕ → Text
id_text none = []
id_text (some n) = show n

abbrev pub is_id : Text → Option ℕ → Bool
is_id t o = id_text o == t

abbrev pub is_in_category : ℕ → Participant → Bool
is_in_category category p = elim (p.category_id) [ none ↦ false | some c ↦ c == category ]

unfoldable pub of_type : TypeFilter → ℕ → List Participant → List Participant → List Participant
of_type all category athletes leaders = filter (is_in_category category) athletes ++ leaders
of_type (only athlete) category athletes leaders = filter (is_in_category category) athletes
of_type (only leader) category athletes leaders = leaders

module _ (js : Runtime) (now : Day) where
  abbrev pub age_of : Option Day → Option ℤ
  age_of none = none
  age_of (some d) = some (age_at now d)

  -- `ageFromDob`
  unfoldable pub age_from_dob : Option Text → Option ℤ
  unfolding age_at
  age_from_dob none = none
  age_from_dob (some t) = if is_empty t then none else age_of (js.date_of t)

  -- `min != null && age < min` and `max != null && age > max`, of an age that is known.
  abbrev pub in_range : (age_min age_max : Text) → Option ℤ → Bool
  in_range low high none = false
  in_range low high (some a) =
      not (not (is_empty low) && js.is_below a (js.number_of low))
      && not (not (is_empty high) && js.is_above a (js.number_of high))

  abbrev pub passes_age : Filters → Participant → Bool
  passes_age f p =
      is_empty f.age_min && is_empty f.age_max
      || in_range f.age_min f.age_max (age_from_dob p.date_of_birth)

  -- `rows`
  unfoldable pub rows : Filters → ℕ → List Participant → List Participant → List Participant
  unfolding of_type age_from_dob
  rows f category athletes leaders = filter (passes_age f) (
      filter (λ p. is_empty f.org_filter || is_id f.org_filter p.organization_id)
        (filter (λ p. is_empty f.event_filter || is_id f.event_filter p.event_id)
          (of_type f.type_filter category athletes leaders)))

-- The numbers of athletes, leaders, men and women.
unfoldable pub summary : List Participant → ℕ × ℕ × ℕ × ℕ
summary ps = (
  length (filter (λ p. is_role p.role athlete) ps),
  length (filter (λ p. is_role p.role leader) ps),
  length (filter (λ p. p.gender == codes "MALE" || p.gender == codes "male") ps),
  length (filter (λ p. p.gender == codes "FEMALE" || p.gender == codes "female") ps),
)

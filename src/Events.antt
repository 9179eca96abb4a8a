-- ===== src/Events.antt =====
-- Events (frontend/src/modules/events): what the server answers and the view that is made of it
-- (schema/events.schema.ts, adapters/eventsHttpAdapter.ts), the form (components/EventForm.tsx,
-- components/eventForm.schema.ts), and what is sent. The three fields of a phase, such as
-- `registration_status`, `registration_open_date` and `registration_close_date`, stand together.
pub mod Form
pub mod RoundTrip
pub mod Listing
pub mod Participation
mod Tests
use choschmous_v.Base.Options.{◌>>=◌}
use choschmous_v.Base.{
  ℕ, Bool, Option, none, some, List, [], ◌∷◌, ◌++◌, if◌then◌else◌, ◌==◌, nat_eq, or_else, Text,
  codes, text_eq, is_empty,
}

-- What the code uses of JavaScript's numbers.
pub record Numbers : Type 1 where
  pub Num : Type 0
  pub number_of : Text → Num
  pub string_of : Num → Text
  pub is_finite : Num → Bool
  pub num_lt : Num → Num → Bool

pub data EventType : Type 0 where
  national : EventType
  university : EventType
  high_school : EventType
  primary_school : EventType

pub data AgeMode : Type 0 where
  birth_year : AgeMode
  exact_age : AgeMode

pub data PhaseStatus : Type 0 where
  auto : PhaseStatus
  open_now : PhaseStatus
  closed : PhaseStatus

-- The values of the enumerations.
unfoldable pub event_type_text : EventType → Text
event_type_text national = codes "កីឡាជាតិ"
event_type_text university =
    codes "កីឡាឧត្តមសិក្សា និងមធ្យមសិក្សា" ++ 8203 ∷ codes "បចេ្ចកទេសថ្នាក់ជាតិថ្នាក់ជាតិ"
event_type_text high_school = codes "សិស្សមធ្យមសិក្សា" ++ 8203 ∷ codes "ថ្នាក់ជាតិ"
event_type_text primary_school = codes "កីឡាសិស្សបឋមសិក្សាជាតិ"

unfoldable pub age_mode_text : AgeMode → Text
age_mode_text birth_year = codes "BIRTH_YEAR"
age_mode_text exact_age = codes "EXACT_AGE"

unfoldable pub status_text : PhaseStatus → Text
status_text auto = codes "AUTO"
status_text open_now = codes "OPEN"
status_text closed = codes "CLOSED"

-- The member of an enumeration with a text, among those listed.
unfoldable pub member {ℓ} : {A : Type ℓ} → (A → Text) → List A → Text → Option A
member f [] t = none
member f (x ∷ xs) t = if f x == t then some x else member f xs t

unfoldable pub event_type_of : Text → Option EventType
unfolding member event_type_text
event_type_of = member event_type_text (national ∷ university ∷ high_school ∷ primary_school ∷ [])

unfoldable pub age_mode_of : Text → Option AgeMode
unfolding member age_mode_text
age_mode_of = member age_mode_text (birth_year ∷ exact_age ∷ [])

unfoldable pub status_of : Text → Option PhaseStatus
unfolding member status_text
status_of = member status_text (auto ∷ open_now ∷ closed ∷ [])

-- A phase as the server answers it; `none` is `null` or a missing field.
pub record RawPhase : Type 0 where
  pub status : Option Text
  pub open_date : Option Text
  pub close_date : Option Text
  pub is_open : Option Bool

pub record RawEvent (Num : Type 0) : Type 0 where
  pub id : ℕ
  pub name_kh : Option Text
  pub description : Option Text
  pub start_date : Option Text
  pub end_date : Option Text
  pub type_field : Option Text
  pub event_type : Option Text
  pub location : Option Text
  pub age_mode : Option Text
  pub age_min : Option Num
  pub age_max : Option Num
  pub survey_category : RawPhase
  pub survey_sport : RawPhase
  pub survey_number : RawPhase
  pub registration : RawPhase
  pub created_at : Option Text
  pub updated_at : Option Text

pub record Phase : Type 0 where
  pub status : Option PhaseStatus
  pub open_date : Option Text
  pub close_date : Option Text
  pub is_open : Option Bool

-- `EventPublic`
pub record Event (Num : Type 0) : Type 0 where
  pub id : ℕ
  pub name : Text
  pub description : Option Text
  pub start_date : Text
  pub end_date : Text
  pub event_type : EventType
  pub location : Option Text
  pub age_mode : Option AgeMode
  pub age_min : Option Num
  pub age_max : Option Num
  pub survey_category : Phase
  pub survey_sport : Phase
  pub survey_number : Phase
  pub registration : Phase
  pub created_at : Option Text
  pub updated_at : Option Text

-- `a || b` of a text that may be missing.
abbrev pub text_or : Option Text → Text → Text
text_or none b = b
text_or (some a) b = if is_empty a then b else a

-- A field of an optional enumeration: missing, a member, or refused.
unfoldable pub optional_member {ℓ} :
    {A : Type ℓ} → (Text → Option A) → Option Text → Option (Option A)
optional_member f none = some none
optional_member f (some t) = do x ← f t; some (some x)

unfoldable pub map_raw_phase : RawPhase → Option Phase
unfolding optional_member
map_raw_phase r = do
  status ← optional_member status_of r.status
  some (record {
    status = status;
    open_date = r.open_date;
    close_date = r.close_date;
    is_open = r.is_open;
  })

-- `raw.type ?? raw.event_type`
abbrev pub first_of : Option Text → Option Text → Option Text
first_of (some a) b = some a
first_of none b = b

-- `mapRawEvent`: `none` where the schema refuses what it made.
unfoldable pub map_raw_event : {Num : Type 0} → RawEvent Num → Option (Event Num)
unfolding optional_member
map_raw_event r = do
  type_text ← first_of r.type_field r.event_type
  event_type ← event_type_of type_text
  age_mode ← optional_member age_mode_of r.age_mode
  survey_category ← map_raw_phase r.survey_category
  survey_sport ← map_raw_phase r.survey_sport
  survey_number ← map_raw_phase r.survey_number
  registration ← map_raw_phase r.registration
  some (record {
    id = r.id;
    name = text_or r.name_kh (codes "Unnamed Event");
    description = r.description;
    start_date = or_else r.start_date [];
    end_date = or_else r.end_date [];
    event_type = event_type;
    location = r.location;
    age_mode = age_mode;
    age_min = r.age_min;
    age_max = r.age_max;
    survey_category = survey_category;
    survey_sport = survey_sport;
    survey_number = survey_number;
    registration = registration;
    created_at = r.created_at;
    updated_at = r.updated_at;
  })

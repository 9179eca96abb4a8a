-- ===== src/Survey/Schema.antt =====
-- The data of the survey (survey/schema/survey.schema.ts), what its cache holds, and the server.
use choschmous_v.Base.{ℕ, Bool, Option, List, nat_eq, Text, text_eq}

pub record Event : Type 0 where
  pub id : ℕ
  pub name_kh : Text
  pub event_type : Text
  pub survey_sport_is_open : Option Bool
  pub created_at : Option Text

pub record Organization : Type 0 where
  pub id : ℕ
  pub name_kh : Text
  pub organization_type : Option Text
  pub code : Option Text
  pub created_at : Option Text

-- `sportEntrySchema`
pub record SportEntry : Type 0 where
  pub id : ℕ
  pub name_kh : Text

-- `sportsEventResponseSchema`
pub record SportsEvent : Type 0 where
  pub id : ℕ
  pub event_name : Option Text
  pub sport_name : Option Text
  pub created_at : Option Text

pub record Sport : Type 0 where
  pub id : ℕ
  pub sports_id : ℕ
  pub name_kh : Text
  pub created_at : Option Text

-- A sport that an organization is linked to.
pub record OrgSport : Type 0 where
  pub sport_id : ℕ
  pub created_at : Text

-- What the cache holds under a key; the key determines which.
pub data Stored : Type 0 where
  events : List Event → Stored
  sports : List SportEntry → Stored
  organizations : List Organization → Stored
  event_sports : List Sport → Stored
  org_sports : List OrgSport → Stored

pub record SurveyPayload : Type 0 where
  pub organization_id : ℕ
  pub event_id : ℕ
  pub sport_ids : List ℕ

-- One sport of `ByNumberSubmissionPayload` (bynumber/schema/bynumber.schema.ts).
pub record SportCount : Type 0 where
  pub sport_id : ℕ
  pub athlete_male_count : ℕ
  pub athlete_female_count : ℕ
  pub leader_male_count : ℕ
  pub leader_female_count : ℕ

pub record ByNumberPayload : Type 0 where
  pub organization_id : ℕ
  pub event_id : ℕ
  pub sports : List SportCount

-- The body of a request that links an organization to a sport, without counts or with them.
pub data Body : Type 0 where
  link : (org_id events_id sports_id : ℕ) → Body
  participation : (org_id events_id organization_id : ℕ) → SportCount → Body

-- An answer to such a request: accepted, or rejected with a status if there was a response.
pub data Posted : Type 0 where
  accepted : Posted
  rejected : (status : Option ℕ) → Posted

-- The server, with its clock in milliseconds. A read is `none` if it is rejected or its body does not
-- fit the schema.
pub record Server : Type 1 where
  pub Net : Type 0
  pub clock : Net → ℕ
  pub get_events : Net → Option (List Event) × Net
  pub get_all_sports : Net → Option (List SportEntry) × Net
  pub get_all_organizations : Net → Option (List Organization) × Net
  pub get_event_sports : (event_id : ℕ) → Net → Option (List SportsEvent) × Net
  pub get_org_sports : (event_id org_id : ℕ) → Net → Option (List OrgSport) × Net
  pub post : Body → Net → Posted × Net

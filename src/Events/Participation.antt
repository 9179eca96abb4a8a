-- ===== src/Events/Participation.antt =====
-- The sports of an event: how the adapter reads them (adapters/eventsHttpAdapter.ts), and the dialog
-- that edits the mode, the sizes of a team and the quotas of one (components/EventSportConfigDialog.tsx).
pub mod Laws
mod Tests
use choschmous_v.Base.{
  Bool, true, false, Option, none, some, [], if◌then◌else◌, or_else, Text, codes, is_empty, trim,
}
use choschmous_v.Events.{Numbers}

-- `SportMode`
pub data Mode : Type 0 where
  individual team both : Mode

abbrev pub has_teams : Mode → Bool
has_teams individual = false
has_teams team = true
has_teams both = true

module _ (js : Numbers) where
  -- `RawEventSport`; `null` and a missing field are the same to what reads it.
  pub record RawEventSport : Type 0 where
    pub id : js.Num
    pub sports_id : Option js.Num
    pub sport_name : Option Text
    pub mode : Option Mode
    pub team_size_min : Option js.Num
    pub team_size_max : Option js.Num
    pub quota_athletes_per_org : Option js.Num
    pub quota_teams_per_org : Option js.Num

  -- `EventSportPublic`
  pub record EventSport : Type 0 where
    pub id : js.Num
    pub sports_id : js.Num
    pub name_kh : Text
    pub name_en : Text
    pub mode : Option Mode
    pub team_size_min : Option js.Num
    pub team_size_max : Option js.Num
    pub quota_athletes_per_org : Option js.Num
    pub quota_teams_per_org : Option js.Num

  unfoldable pub map_raw_sport : RawEventSport → EventSport
  map_raw_sport s = record {
    id = s.id;
    sports_id = or_else s.sports_id s.id;
    name_kh = or_else s.sport_name (codes "Unnamed Sport");
    name_en = or_else s.sport_name (codes "Unnamed Sport");
    mode = s.mode;
    team_size_min = s.team_size_min;
    team_size_max = s.team_size_max;
    quota_athletes_per_org = s.quota_athletes_per_org;
    quota_teams_per_org = s.quota_teams_per_org;
  }

  -- The state of the dialog.
  pub record Dialog : Type 0 where
    pub mode : Mode
    pub team_min : Text
    pub team_max : Text
    pub quota_athletes : Text
    pub quota_teams : Text

  -- `SportConfigPayload`
  pub record Config : Type 0 where
    pub mode : Mode
    pub team_size_min : Option js.Num
    pub team_size_max : Option js.Num
    pub quota_athletes_per_org : Option js.Num
    pub quota_teams_per_org : Option js.Num

  -- `n?.toString() ?? ''`
  abbrev pub text_of : Option js.Num → Text
  text_of none = []
  text_of (some n) = js.string_of n

  unfoldable pub open_dialog : EventSport → Dialog
  open_dialog s = record {
    mode = or_else s.mode individual;
    team_min = text_of s.team_size_min;
    team_max = text_of s.team_size_max;
    quota_athletes = text_of s.quota_athletes_per_org;
    quota_teams = text_of s.quota_teams_per_org;
  }

  abbrev pub to_num : Text → Option js.Num
  to_num t = if is_empty (trim t) then none else some (js.number_of t)

  abbrev pub if_teams {ℓ} : {A : Type ℓ} → Mode → Option A → Option A
  if_teams m o = if has_teams m then o else none

  -- The configuration that `handleSave` sends.
  unfoldable pub handle_save : Dialog → Config
  handle_save d = record {
    mode = d.mode;
    team_size_min = if_teams d.mode (to_num d.team_min);
    team_size_max = if_teams d.mode (to_num d.team_max);
    quota_athletes_per_org = to_num d.quota_athletes;
    quota_teams_per_org = if_teams d.mode (to_num d.quota_teams);
  }

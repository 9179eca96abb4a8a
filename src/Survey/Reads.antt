-- ===== src/Survey/Reads.antt =====
-- The reads of the sport survey (survey/adapters/surveyHttpAdapter.ts).
pub mod Laws
use choschmous_v.Base.{
  ℕ, Bool, true, not, Option, none, some, List, [], ◌∷◌, ◌++◌, map, if◌then◌else◌, ◌==◌, nat_eq,
  or_else, filter, Text, codes, text_eq,
}
use choschmous_v.Base.Decimal.{show}
use choschmous_v.Survey.Schema.{
  Event, Organization, SportEntry, SportsEvent, Sport, OrgSport, Stored, events, sports,
  organizations, event_sports, org_sports, Server,
}
use choschmous_v.Survey.Cache.{World, W, cached_fetch}

abbrev pub read_events : Stored → List Event
read_events (events es) = es
read_events _ = []

abbrev pub read_sports : Stored → List SportEntry
read_sports (sports ss) = ss
read_sports _ = []

abbrev pub read_organizations : Stored → List Organization
read_organizations (organizations os) = os
read_organizations _ = []

abbrev pub read_event_sports : Stored → List Sport
read_event_sports (event_sports ss) = ss
read_event_sports _ = []

abbrev pub read_org_sports : Stored → List OrgSport
read_org_sports (org_sports ss) = ss
read_org_sports _ = []

-- `e.survey_sport_is_open !== false`
abbrev pub is_eligible : Event → Bool
is_eligible e = or_else e.survey_sport_is_open true

-- `allSports.find(s => s.name_kh === name)`
abbrev pub find_sport : Option Text → List SportEntry → Option SportEntry
find_sport none ss = none
find_sport (some name) [] = none
find_sport (some name) (s ∷ ss) = if s.name_kh == name then some s else find_sport (some name) ss

-- A sport of an event, with the id of the sport that has its name, or 0.
abbrev pub matched : List SportEntry → SportsEvent → Sport
matched all se = record {
  id = se.id;
  sports_id = elim (find_sport se.sport_name all) [ some s ↦ s.id | none ↦ 0 ];
  name_kh = or_else se.sport_name [];
  created_at = se.created_at;
}

unfoldable pub match_sports : List SportEntry → List SportsEvent → List Sport
match_sports all raw = filter (λ s. not (s.sports_id == 0)) (map (matched all) raw)

abbrev pub dash : ℕ
dash = 45

module _ (s : Server) where
  -- A read puts the server's state back.
  abbrev ask : {A : Type 0} → (s.Net → Option A × s.Net) → W s → Option A × W s
  ask call w = ((call w.net).0, record w { net = (call w.net).1 })

  abbrev map_answer : {A B : Type 0} → (A → B) → Option A × W s → Option B × W s
  map_answer f (none, w) = (none, w)
  map_answer f (some a, w) = (some (f a), w)

  unfoldable pub fetch_events : W s → List Event × W s
  fetch_events =
      cached_fetch s events read_events (codes "events")
        (λ w. map_answer (filter is_eligible) (ask s.get_events w))

  unfoldable pub fetch_all_sports : W s → List SportEntry × W s
  fetch_all_sports = cached_fetch s sports read_sports (codes "all-sports") (ask s.get_all_sports)

  unfoldable pub fetch_all_organizations : W s → List Organization × W s
  fetch_all_organizations =
      cached_fetch s organizations read_organizations (codes "organizations")
        (ask s.get_all_organizations)

  abbrev with_sports : Option (List SportsEvent) × W s → Option (List Sport) × W s
  with_sports (none, w) = (none, w)
  with_sports (some raw, w) = let (all, v) = fetch_all_sports w in (some (match_sports all raw), v)

  unfoldable pub fetch_event_sports : (event_id : ℕ) → W s → List Sport × W s
  fetch_event_sports event_id =
      cached_fetch s event_sports read_event_sports (codes "event-sports-" ++ show event_id)
        (λ w. with_sports (ask (s.get_event_sports event_id) w))

  unfoldable pub fetch_existing_org_sports : (event_id org_id : ℕ) → W s → List OrgSport × W s
  fetch_existing_org_sports event_id org_id =
      cached_fetch s org_sports read_org_sports
        (codes "org-sports-" ++ show org_id ++ dash ∷ show event_id)
        (ask (s.get_org_sports event_id org_id))

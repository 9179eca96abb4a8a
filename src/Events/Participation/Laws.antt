-- ===== src/Events/Participation/Laws.antt =====
-- What the dialog sends when nothing is changed.
use choschmous_v.Base.{◌≡◌, refl, ap, false, Option, none, some, nat_eq, text_eq, is_empty, trim}
use choschmous_v.Events.{Numbers}
use choschmous_v.Events.Participation.{
  Mode, team, both, individual, RawEventSport, map_raw_sport, Config, text_of, open_dialog, to_num,
  handle_save,
}

-- The configuration of a sport by its mode: all that the server has given for teams and for both; for
-- individuals, and without a mode, the mode of individuals and the quota of athletes alone.
abbrev team_config : (js : Numbers) → Mode → RawEventSport js → Config js
team_config js m r = record {
  mode = m;
  team_size_min = r.team_size_min;
  team_size_max = r.team_size_max;
  quota_athletes_per_org = r.quota_athletes_per_org;
  quota_teams_per_org = r.quota_teams_per_org;
}

abbrev single_config : (js : Numbers) → RawEventSport js → Config js
single_config js r = record {
  mode = individual;
  team_size_min = none;
  team_size_max = none;
  quota_athletes_per_org = r.quota_athletes_per_org;
  quota_teams_per_org = none;
}

abbrev pub config_by_mode : (js : Numbers) → Option Mode → RawEventSport js → Config js
config_by_mode js (some team) r = team_config js team r
config_by_mode js (some both) r = team_config js both r
config_by_mode js (some individual) r = single_config js r
config_by_mode js none r = single_config js r

to_num_again :
    (js : Numbers)
    → ((n : js.Num) → js.number_of (js.string_of n) ≡ n)
    → ((n : js.Num) → is_empty (trim (js.string_of n)) ≡ false)
    → (o : Option js.Num) → to_num js (text_of js o) ≡ o
unfolding trim
to_num_again js round shown none = refl
to_num_again js round shown (some n) = rw (shown n) (ap some (round n))

saved_by_mode :
    (js : Numbers) (r : RawEventSport js) (m : Option Mode)
    → r.mode ≡ m
    → (to_num js (text_of js r.team_size_min) ≡ r.team_size_min)
      × (to_num js (text_of js r.team_size_max) ≡ r.team_size_max)
      × (to_num js (text_of js r.quota_athletes_per_org) ≡ r.quota_athletes_per_org)
      × (to_num js (text_of js r.quota_teams_per_org) ≡ r.quota_teams_per_org)
    → handle_save js (open_dialog js (map_raw_sport js r)) ≡ config_by_mode js m r
unfolding handle_save open_dialog map_raw_sport
saved_by_mode js r (some individual) h (a, b, c, d) = rw (h, c) refl
saved_by_mode js r (some team) h (a, b, c, d) = rw (h, a, b, c, d) refl
saved_by_mode js r (some both) h (a, b, c, d) = rw (h, a, b, c, d) refl
saved_by_mode js r none h (a, b, c, d) = rw (h, c) refl

-- If the text of a number is read back as that number, and is not blank, then opening the dialog of a
-- sport and saving it at once sends, for teams and for both, the mode, the sizes and the quotas that the
-- server has given; for individuals, and without a mode, the mode of individuals and the quota of
-- athletes, and nothing for the sizes and the quota of teams.
pub saved_config :
    (js : Numbers)
    → ((n : js.Num) → js.number_of (js.string_of n) ≡ n)
    → ((n : js.Num) → is_empty (trim (js.string_of n)) ≡ false)
    → (r : RawEventSport js)
    → handle_save js (open_dialog js (map_raw_sport js r)) ≡ config_by_mode js r.mode r
saved_config js round shown r = saved_by_mode js r r.mode refl (
  to_num_again js round shown r.team_size_min,
  to_num_again js round shown r.team_size_max,
  to_num_again js round shown r.quota_athletes_per_org,
  to_num_again js round shown r.quota_teams_per_org,
)

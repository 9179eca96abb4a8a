-- ===== src/Events/Participation/Tests.antt =====
-- A sport of teams.
use choschmous_v.Base.{ℕ, ◌≡◌, true, false, none, some, [], ◌∷◌, ltb, Text, is_empty, trim}
use choschmous_v.Base.Decimal.{show, read, read-show, StartsWithDigit, show-StartsWithDigit}
use choschmous_v.Base.Trimming.{trim-kept}
use choschmous_v.Base.{digit_not_space}
use choschmous_v.Events.{Numbers}
use choschmous_v.Events.Participation.{team, RawEventSport, map_raw_sport, open_dialog, handle_save}
use choschmous_v.Events.Participation.Laws.{config_by_mode, saved_config}

abbrev numbers : Numbers
numbers = record {
  Num = ℕ;
  number_of = read;
  string_of = show;
  is_finite = λ n. true;
  num_lt = ltb;
}

kept_digits : (s : Text) → StartsWithDigit s → is_empty (trim s) ≡ false
kept_digits [] h = absurd h
kept_digits (c ∷ s) (a, b) = trim-kept c s (digit_not_space c a b)

abbrev volleyball : RawEventSport numbers
volleyball = record {
  id = 4;
  sports_id = some 9;
  sport_name = none;
  mode = some team;
  team_size_min = some 6;
  team_size_max = some 12;
  quota_athletes_per_org = none;
  quota_teams_per_org = some 2;
}

saved_config_example :
    handle_save numbers (open_dialog numbers (map_raw_sport numbers volleyball))
    ≡ config_by_mode numbers (some team) volleyball
saved_config_example =
    saved_config numbers read-show (λ n. kept_digits (show n) (show-StartsWithDigit n)) volleyball

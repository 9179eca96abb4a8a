-- ===== src/Events/Tests.antt =====
-- An event that is edited, on concrete inputs.
use choschmous_v.Base.{ℕ, ◌≡◌, refl, true, none, some, [], ltb, nat_eq, codes, text_eq}
use choschmous_v.Base.Decimal.{show, read, read-show}
use choschmous_v.Registration.Form.{all_of}
use choschmous_v.Events.{
  Numbers, national, open_now, event_type_text, RawPhase, RawEvent, Phase, Event, map_raw_event,
  event_type_of, age_mode_of, status_of, map_raw_phase,
}
use choschmous_v.Events.Form.{values_of, checks, on_submit, update_body}
use choschmous_v.Events.RoundTrip.{patch, with_defaults, unchanged_edit}

abbrev numbers : Numbers
numbers = record {
  Num = ℕ;
  number_of = read;
  string_of = show;
  is_finite = λ n. true;
  num_lt = ltb;
}

abbrev raw_phase : RawPhase
raw_phase = record {
  status = some (codes "OPEN");
  open_date = some (codes "2026-01-01");
  close_date = none;
  is_open = some true;
}

abbrev raw : RawEvent ℕ
raw = record {
  id = 3;
  name_kh = some (codes "Games");
  description = some [];
  start_date = some (codes "2026-03-01");
  end_date = some (codes "2026-03-09");
  type_field = some (event_type_text national);
  event_type = none;
  location = some (codes "Takeo");
  age_mode = none;
  age_min = some 12;
  age_max = some 18;
  survey_category = raw_phase;
  survey_sport = raw_phase;
  survey_number = record { status = none; open_date = none; close_date = none; is_open = none };
  registration = raw_phase;
  created_at = none;
  updated_at = none;
}

abbrev phase : Phase
phase = record {
  status = some open_now;
  open_date = some (codes "2026-01-01");
  close_date = none;
  is_open = some true;
}

abbrev shown : Event ℕ
shown = record {
  id = 3;
  name = codes "Games";
  description = some [];
  start_date = codes "2026-03-01";
  end_date = codes "2026-03-09";
  event_type = national;
  location = some (codes "Takeo");
  age_mode = none;
  age_min = some 12;
  age_max = some 18;
  survey_category = phase;
  survey_sport = phase;
  survey_number = record { status = none; open_date = none; close_date = none; is_open = none };
  registration = phase;
  created_at = none;
  updated_at = none;
}

raw-shown : map_raw_event raw ≡ some shown
unfolding map_raw_event event_type_of age_mode_of status_of map_raw_phase
raw-shown = refl

form_accepted : all_of (checks numbers (values_of numbers shown)) ≡ true
unfolding checks values_of show read
form_accepted = refl

unchanged_edit_example :
    map_raw_event (patch (update_body (on_submit numbers (values_of numbers shown))) raw)
    ≡ some (with_defaults shown)
unchanged_edit_example = unchanged_edit numbers read-show raw shown raw-shown form_accepted

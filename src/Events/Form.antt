-- ===== src/Events/Form.antt =====
-- The form of an event: its values from an event, its schema, and the requests of the adapter.
use choschmous_v.Base.{
  Bool, not, ◌&&◌, Option, none, some, List, [], ◌∷◌, leb, if◌then◌else◌, nat_eq, or_else, length,
  Text, text_eq, is_empty, text_lt,
}
use choschmous_v.Events.{
  Numbers, EventType, AgeMode, birth_year, PhaseStatus, auto, national, Phase, Event, text_or,
}

-- A phase in the form.
pub record PhaseValues : Type 0 where
  pub status : PhaseStatus
  pub open_date : Text
  pub close_date : Text

-- `EventFormValues`
pub record Values : Type 0 where
  pub name : Text
  pub description : Text
  pub start_date : Text
  pub end_date : Text
  pub event_type : EventType
  pub location : Text
  pub age_mode : AgeMode
  pub age_min : Text
  pub age_max : Text
  pub survey_category : PhaseValues
  pub survey_sport : PhaseValues
  pub survey_number : PhaseValues
  pub registration : PhaseValues

unfoldable pub phase_values : Phase → PhaseValues
phase_values p = record {
  status = or_else p.status auto;
  open_date = text_or p.open_date [];
  close_date = text_or p.close_date [];
}

abbrev pub empty_phase : PhaseValues
empty_phase = record { status = auto; open_date = []; close_date = [] }

-- The form of a new event.
abbrev pub new_values : Values
new_values = record {
  name = [];
  description = [];
  start_date = [];
  end_date = [];
  event_type = national;
  location = [];
  age_mode = birth_year;
  age_min = [];
  age_max = [];
  survey_category = empty_phase;
  survey_sport = empty_phase;
  survey_number = empty_phase;
  registration = empty_phase;
}

-- `!(open && close && close < open)`
abbrev pub in_order : Text → Text → Bool
in_order from to = not (not (is_empty from) && not (is_empty to) && text_lt to from)

-- A property of a field of an update: not sent, `null`, or a value.
pub data Sent {ℓ} (A : Type ℓ) : Type ℓ where
  absent : Sent A
  null : Sent A
  value : A → Sent A

-- `value || null` and `value === '' ? null : value` of a text.
unfoldable pub text_or_null : Text → Sent Text
text_or_null t = if is_empty t then null else value t

-- `description || null` of a field that may be missing: it stays so.
unfoldable pub or_null : Sent Text → Sent Text
or_null absent = absent
or_null null = null
or_null (value t) = text_or_null t

pub record SentPhase : Type 0 where
  pub status : Sent PhaseStatus
  pub open_date : Sent Text
  pub close_date : Sent Text

-- `EventUpdate` without its id, in the fields of the form and in those of the server.
pub record Update (Num : Type 0) : Type 0 where
  pub name : Sent Text
  pub event_type : Sent EventType
  pub description : Sent Text
  pub start_date : Sent Text
  pub end_date : Sent Text
  pub location : Sent Text
  pub age_mode : Sent AgeMode
  pub age_min : Sent Num
  pub age_max : Sent Num
  pub survey_category : SentPhase
  pub survey_sport : SentPhase
  pub survey_number : SentPhase
  pub registration : SentPhase

-- `phasePayload` on the fields of one phase. No status is the empty text.
unfoldable pub phase_payload : SentPhase → SentPhase
unfolding or_null
phase_payload p = record p { open_date = or_null p.open_date; close_date = or_null p.close_date }

-- The body of the request of `update`.
unfoldable pub update_body : {Num : Type 0} → Update Num → Update Num
unfolding or_null phase_payload
update_body u = record u {
  description = or_null u.description;
  start_date = or_null u.start_date;
  end_date = or_null u.end_date;
  location = or_null u.location;
  survey_category = phase_payload u.survey_category;
  survey_sport = phase_payload u.survey_sport;
  survey_number = phase_payload u.survey_number;
  registration = phase_payload u.registration;
}

-- `updatePhase`: the body of a quick action on a phase.
pub record PhaseBody : Type 0 where
  pub phase : Text
  pub status : PhaseStatus
  pub open_date : Sent Text
  pub close_date : Sent Text

unfoldable pub phase_body : Text → PhaseStatus → Option Text → Option Text → PhaseBody
unfolding text_or_null
phase_body phase status from to = record {
  phase = phase;
  status = status;
  open_date = text_or_null (or_else from []);
  close_date = text_or_null (or_else to []);
}

abbrev pub sent_phase : PhaseValues → SentPhase
sent_phase p = record {
  status = value p.status;
  open_date = value p.open_date;
  close_date = value p.close_date;
}

module _ (js : Numbers) where
  -- `age != null ? String(age) : ""`
  abbrev pub age_text : Option js.Num → Text
  age_text none = []
  age_text (some n) = js.string_of n

  -- The form of an event that is edited.
  unfoldable pub values_of : Event js.Num → Values
  unfolding phase_values
  values_of e = record {
    name = e.name;
    description = text_or e.description [];
    start_date = e.start_date;
    end_date = e.end_date;
    event_type = e.event_type;
    location = text_or e.location [];
    age_mode = or_else e.age_mode birth_year;
    age_min = age_text e.age_min;
    age_max = age_text e.age_max;
    survey_category = phase_values e.survey_category;
    survey_sport = phase_values e.survey_sport;
    survey_number = phase_values e.survey_number;
    registration = phase_values e.registration;
  }

  -- `min > max` of two ages that are numbers.
  abbrev pub ages_in_order : Text → Text → Bool
  ages_in_order min max = not (
      not (is_empty min)
      && not (is_empty max)
      && js.is_finite (js.number_of min)
      && js.is_finite (js.number_of max)
      && js.num_lt (js.number_of max) (js.number_of min))

  -- The checks of `eventSchema` that its types leave.
  unfoldable pub checks : Values → List Bool
  checks v =
      leb 3 (length v.name)
      ∷ leb 1 (length v.start_date)
      ∷ leb 1 (length v.end_date)
      ∷ leb 2 (length v.location)
      ∷ leb 1 (length v.age_min)
      ∷ leb 1 (length v.age_max)
      ∷ in_order v.start_date v.end_date
      ∷ ages_in_order v.age_min v.age_max
      ∷ in_order v.survey_category.open_date v.survey_category.close_date
      ∷ in_order v.survey_sport.open_date v.survey_sport.close_date
      ∷ in_order v.survey_number.open_date v.survey_number.close_date
      ∷ in_order v.registration.open_date v.registration.close_date
      ∷ []

  -- `onSubmit`: every field is sent, the ages as numbers.
  unfoldable pub on_submit : Values → Update js.Num
  on_submit v = record {
    name = value v.name;
    event_type = value v.event_type;
    description = value v.description;
    start_date = value v.start_date;
    end_date = value v.end_date;
    location = value v.location;
    age_mode = value v.age_mode;
    age_min = value (js.number_of v.age_min);
    age_max = value (js.number_of v.age_max);
    survey_category = sent_phase v.survey_category;
    survey_sport = sent_phase v.survey_sport;
    survey_number = sent_phase v.survey_number;
    registration = sent_phase v.registration;
  }

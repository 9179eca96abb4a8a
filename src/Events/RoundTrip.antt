-- ===== src/Events/RoundTrip.antt =====
-- An event that is edited without a change.
use choschmous_v.Base.{
  ◌≡◌, refl, sym, ap, ◌∙◌, true, Option, none, some, [], ◌∷◌, arith, leb, if◌then◌else◌, nat_eq,
  or_else, length, Text, codes, text_eq, is_empty,
}
use choschmous_v.Base.Options.{bind_some, some_eq, bind_go}
use choschmous_v.Registration.Form.{all_of}
use choschmous_v.Registration.Form.Laws.{all_of-All}
use choschmous_v.Events.{
  Numbers, EventType, national, university, high_school, primary_school, AgeMode, birth_year,
  exact_age, PhaseStatus, auto, open_now, closed, event_type_text, age_mode_text, status_text,
  event_type_of, age_mode_of, status_of, optional_member, RawPhase, RawEvent, Phase, Event, text_or,
  first_of, map_raw_phase, map_raw_event,
}
use choschmous_v.Events.Form.{
  phase_values, Sent, absent, null, value, text_or_null, or_null, SentPhase, Update, phase_payload,
  update_body, sent_phase, age_text, values_of, checks, on_submit,
}

-- What a field is after a partial update: a field that is not sent stays.
abbrev pub apply {ℓ} : {A : Type ℓ} → Sent A → Option A → Option A
apply absent o = o
apply null o = none
apply (value a) o = some a

-- What an enumeration's field is after the update.
abbrev pub apply_member : {A : Type 0} → (A → Text) → Sent A → Option Text → Option Text
apply_member f absent o = o
apply_member f null o = none
apply_member f (value a) o = some (f a)

pub patch_phase : SentPhase → RawPhase → RawPhase
patch_phase p r = record r {
  status = apply_member status_text p.status r.status;
  open_date = apply p.open_date r.open_date;
  close_date = apply p.close_date r.close_date;
}

-- The event that the server holds after the body of an update, `type` being the field for its type.
pub patch : {Num : Type 0} → Update Num → RawEvent Num → RawEvent Num
patch u r = record r {
  name_kh = apply u.name r.name_kh;
  type_field = apply_member event_type_text u.event_type r.type_field;
  description = apply u.description r.description;
  start_date = apply u.start_date r.start_date;
  end_date = apply u.end_date r.end_date;
  location = apply u.location r.location;
  age_mode = apply_member age_mode_text u.age_mode r.age_mode;
  age_min = apply u.age_min r.age_min;
  age_max = apply u.age_max r.age_max;
  survey_category = patch_phase u.survey_category r.survey_category;
  survey_sport = patch_phase u.survey_sport r.survey_sport;
  survey_number = patch_phase u.survey_number r.survey_number;
  registration = patch_phase u.registration r.registration;
}

-- A text that is not empty.
abbrev pub non_empty : Option Text → Option Text
non_empty none = none
non_empty (some t) = if is_empty t then none else some t

abbrev pub phase_with_defaults : Phase → Phase
phase_with_defaults p = record p {
  status = some (or_else p.status auto);
  open_date = non_empty p.open_date;
  close_date = non_empty p.close_date;
}

-- The event with the form's defaults for what it lacks, and no empty texts.
abbrev pub with_defaults : {Num : Type 0} → Event Num → Event Num
with_defaults e = record e {
  description = non_empty e.description;
  location = non_empty e.location;
  age_mode = some (or_else e.age_mode birth_year);
  survey_category = phase_with_defaults e.survey_category;
  survey_sport = phase_with_defaults e.survey_sport;
  survey_number = phase_with_defaults e.survey_number;
  registration = phase_with_defaults e.registration;
}

event_type_of-text : (x : EventType) → event_type_of (event_type_text x) ≡ some x
unfolding event_type_of
event_type_of-text national = refl
event_type_of-text university = refl
event_type_of-text high_school = refl
event_type_of-text primary_school = refl

age_mode_of-text : (x : AgeMode) → age_mode_of (age_mode_text x) ≡ some x
unfolding age_mode_of
age_mode_of-text birth_year = refl
age_mode_of-text exact_age = refl

status_of-text : (x : PhaseStatus) → status_of (status_text x) ≡ some x
unfolding status_of
status_of-text auto = refl
status_of-text open_now = refl
status_of-text closed = refl

sent_text : (o p : Option Text) → apply (text_or_null (text_or o [])) p ≡ non_empty o
unfolding text_or_null
sent_text none p = refl
sent_text (some []) p = refl
sent_text (some (c ∷ t)) p = refl

sent_date : (t : Text) (p : Option Text) → or_else (apply (text_or_null t) p) [] ≡ t
unfolding text_or_null
sent_date [] p = refl
sent_date (c ∷ t) p = refl

-- The phase that is read back.
phase_again :
    (p : Phase) (r : RawPhase)
    → p.is_open ≡ r.is_open
    → map_raw_phase (patch_phase (phase_payload (sent_phase (phase_values p))) r)
      ≡ some (phase_with_defaults p)
unfolding map_raw_phase patch_phase phase_payload phase_values optional_member or_null
phase_again p r h =
    rw
      (
        status_of-text (or_else p.status auto),
        sent_text p.open_date r.open_date,
        sent_text p.close_date r.close_date,
        ← h,
      )
      refl

phase_is_open : (r : RawPhase) (p : Phase) → map_raw_phase r ≡ some p → p.is_open ≡ r.is_open
unfolding map_raw_phase
phase_is_open r p h =
    let (s, q, k) = bind_some (optional_member status_of r.status) _ h in
    ap (λ o. elim o [ some x ↦ x.is_open | none ↦ none ]) (sym k)

-- The fields of an event that an update does not send are those of the server's.
record KeepsRest {Num : Type 0} (r : RawEvent Num) (e : Event Num) : Type 0 where
  id : e.id ≡ r.id
  created_at : e.created_at ≡ r.created_at
  updated_at : e.updated_at ≡ r.updated_at
  survey_category : e.survey_category.is_open ≡ r.survey_category.is_open
  survey_sport : e.survey_sport.is_open ≡ r.survey_sport.is_open
  survey_number : e.survey_number.is_open ≡ r.survey_number.is_open
  registration : e.registration.is_open ≡ r.registration.is_open

map_raw_event-KeepsRest :
    {Num : Type 0} (r : RawEvent Num) (e : Event Num) → map_raw_event r ≡ some e → KeepsRest r e
unfolding map_raw_event
map_raw_event-KeepsRest {Num} r e h =
    let (t, t_eq, h1) = bind_some (first_of r.type_field r.event_type) _ h in
    let (ty, ty_eq, h2) = bind_some (event_type_of t) _ h1 in
    let (m, m_eq, h3) = bind_some (optional_member age_mode_of r.age_mode) _ h2 in
    let (a, a_eq, h4) = bind_some (map_raw_phase r.survey_category) _ h3 in
    let (b, b_eq, h5) = bind_some (map_raw_phase r.survey_sport) _ h4 in
    let (c, c_eq, h6) = bind_some (map_raw_phase r.survey_number) _ h5 in
    let (d, d_eq, h7) = bind_some (map_raw_phase r.registration) _ h6 in
    record {
      id = ap (λ x. x.id) (some_eq h7);
      created_at = ap (λ x. x.created_at) (some_eq h7);
      updated_at = ap (λ x. x.updated_at) (some_eq h7);
      survey_category =
          ap (λ x. x.survey_category.is_open) (some_eq h7) ∙ phase_is_open r.survey_category a a_eq;
      survey_sport =
          ap (λ x. x.survey_sport.is_open) (some_eq h7) ∙ phase_is_open r.survey_sport b b_eq;
      survey_number =
          ap (λ x. x.survey_number.is_open) (some_eq h7) ∙ phase_is_open r.survey_number c c_eq;
      registration =
          ap (λ x. x.registration.is_open) (some_eq h7) ∙ phase_is_open r.registration d d_eq;
    }

age_mode_again :
    (x : AgeMode) → optional_member age_mode_of (some (age_mode_text x)) ≡ some (some x)
unfolding optional_member
age_mode_again x = rw (age_mode_of-text x) refl

-- The accepted ages are those of the event.
age_again :
    (js : Numbers)
    → ((n : js.Num) → js.number_of (js.string_of n) ≡ n)
    → (o : Option js.Num) → leb 1 (length (age_text js o)) ≡ true
    → some (js.number_of (age_text js o)) ≡ o
age_again js round none h = absurd (ground arith)
age_again js round (some n) h = ap (λ x. some x) (round n)

name_again : (t : Text) (b : Text) → leb 3 (length t) ≡ true → text_or (some t) b ≡ t
name_again [] b h = absurd (ground arith)
name_again (c ∷ t) b h = refl

-- If the form of an event is accepted as it opens, then sending it changes nothing of the event but
-- what it lacks: read back after the update, it has the form's defaults for a missing age mode and
-- missing statuses, and no empty texts. Turning a number into a text and back is assumed to keep it.
pub unchanged_edit :
    (js : Numbers) (round : (n : js.Num) → js.number_of (js.string_of n) ≡ n) (r : RawEvent js.Num)
    (e : Event js.Num)
    → map_raw_event r ≡ some e
    → all_of (checks js (values_of js e)) ≡ true
    → map_raw_event (patch (update_body (on_submit js (values_of js e))) r) ≡ some (with_defaults e)
unfolding map_raw_event patch update_body on_submit values_of checks or_null
unchanged_edit js round r e h ok =
    let k = map_raw_event-KeepsRest r e h in
    let c = all_of-All (checks js (values_of js e)) ok in
    bind_go _ _ (event_type_of-text e.event_type) (
      bind_go _ _ (age_mode_again (or_else e.age_mode birth_year)) (
        bind_go _ _ (phase_again e.survey_category r.survey_category k.survey_category) (
          bind_go _ _ (phase_again e.survey_sport r.survey_sport k.survey_sport) (
            bind_go _ _ (phase_again e.survey_number r.survey_number k.survey_number) (
              bind_go _ _ (phase_again e.registration r.registration k.registration) (
                rw
                  (
                    name_again e.name (codes "Unnamed Event") (c.0),
                    sent_text e.description r.description,
                    sent_text e.location r.location,
                    sent_date e.start_date r.start_date,
                    sent_date e.end_date r.end_date,
                    age_again js round e.age_min (c.1.1.1.1.0),
                    age_again js round e.age_max (c.1.1.1.1.1.0),
                    ← k.id,
                    ← k.created_at,
                    ← k.updated_at,
                  )
                  refl))))))

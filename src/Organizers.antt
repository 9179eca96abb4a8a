-- ===== src/Organizers.antt =====
-- The registration of an organizer (frontend/src/modules/organizers/components/
-- OrganizerRegistrationPage.tsx): the state of the page, its handlers, and which of its controls can be
-- used when. `Number(s)` is a parameter; the events and roles that are offered are not modelled, nor is
-- the text of the fallback error.
pub mod Laws
mod Tests
use choschmous_v.Base.{
  Bool, true, false, not, ◌&&◌, Option, none, some, List, [], ◌∷◌, if◌then◌else◌, Text, codes,
  is_empty,
}

pub data Step : Type 0 where
  event personal role review : Step

pub data PersonField : Type 0 where
  kh_family_name kh_given_name en_family_name en_given_name : PersonField
  gender date_of_birth phone id_doc_type address : PersonField

pub record Person : Type 0 where
  pub kh_family_name : Text
  pub kh_given_name : Text
  pub en_family_name : Text
  pub en_given_name : Text
  pub gender : Text
  pub date_of_birth : Text
  pub phone : Text
  pub id_doc_type : Text
  pub address : Text

abbrev pub with_field : PersonField → Text → Person → Person
with_field kh_family_name t p = record p { kh_family_name = t }
with_field kh_given_name t p = record p { kh_given_name = t }
with_field en_family_name t p = record p { en_family_name = t }
with_field en_given_name t p = record p { en_given_name = t }
with_field gender t p = record p { gender = t }
with_field date_of_birth t p = record p { date_of_birth = t }
with_field phone t p = record p { phone = t }
with_field id_doc_type t p = record p { id_doc_type = t }
with_field address t p = record p { address = t }

abbrev pub empty_person : Person
empty_person = record {
  kh_family_name = [];
  kh_given_name = [];
  en_family_name = [];
  en_given_name = [];
  gender = [];
  date_of_birth = [];
  phone = [];
  id_doc_type = codes "IDCard";
  address = [];
}

-- The `detail` of a rejection: a text, an object with a message, or something else.
pub data Detail : Type 0 where
  text : Text → Detail
  message : Text → Detail
  other : Detail

-- `steps[idx + 1]` and `steps[idx - 1]` where they are in range.
abbrev pub next_step : Step → Step
next_step event = personal
next_step personal = role
next_step role = review
next_step review = review

abbrev pub previous_step : Step → Step
previous_step event = event
previous_step personal = event
previous_step role = personal
previous_step review = role

abbrev pub none_if_empty : Text → Option Text
none_if_empty t = if is_empty t then none else some t

module _ {Num : Type 0} (number_of : Text → Num) where
  -- `OrganizerRegistrationPayload`
  pub record Payload : Type 0 where
    pub event_id : Num
    pub organization_id : Option Num
    pub organizer_role_id : Num
    pub person : Person
    pub nationality : Text
    pub address : Option Text

  -- The state, with the payloads that were sent, the latest first.
  pub record State : Type 0 where
    pub step : Step
    pub success : Bool
    pub server_error : Option Detail
    pub event_id : Text
    pub org_id : Option Text
    pub person : Person
    pub organizer_role_id : Text
    pub is_pending : Bool
    pub sent : List Payload

  -- The page of a user, with the id of the organization that the user's account is bound to.
  unfoldable pub start : (is_organization : Bool) → Option Text → State
  start is_organization own = record {
    step = event;
    success = false;
    server_error = none;
    event_id = [];
    org_id = if is_organization then own else none;
    person = empty_person;
    organizer_role_id = [];
    is_pending = false;
    sent = [];
  }

  abbrev pub number_or_null : Option Text → Option Num
  number_or_null none = none
  number_or_null (some t) = if is_empty t then none else some (number_of t)

  abbrev pub payload_of : State → Payload
  payload_of s = record {
    event_id = number_of s.event_id;
    organization_id = number_or_null s.org_id;
    organizer_role_id = number_of s.organizer_role_id;
    person = s.person;
    nationality = codes "Cambodian";
    address = none_if_empty (s.person.address);
  }

  -- `canProceedPersonal`
  abbrev pub can_proceed_personal : Person → Bool
  can_proceed_personal p =
      not (is_empty p.kh_family_name)
      && not (is_empty p.kh_given_name)
      && not (is_empty p.en_family_name)
      && not (is_empty p.en_given_name)
      && not (is_empty p.gender)
      && not (is_empty p.date_of_birth)
      && not (is_empty p.phone)

  -- The button "next" is not disabled.
  abbrev pub can_proceed : State → Step → Bool
  can_proceed s event = not (is_empty s.event_id)
  can_proceed s personal = can_proceed_personal s.person
  can_proceed s role = not (is_empty s.organizer_role_id)
  can_proceed s review = true

  -- What the user does, and the answer to the request.
  pub data Event : Type 0 where
    next back submit : Event
    choose_event choose_org choose_role : Text → Event
    fill : PersonField → Text → Event
    fulfilled : Event
    rejected : Detail → Event

  abbrev pub on_step : Step → Step → Bool
  on_step event event = true
  on_step personal personal = true
  on_step role role = true
  on_step review review = true
  on_step _ _ = false

  -- The controls that are on the page, and not disabled; an answer comes to a pending request.
  unfoldable pub is_enabled : (is_organization : Bool) → State → Event → Bool
  is_enabled is_organization s next =
      not s.success && not (on_step s.step review) && can_proceed s s.step
  is_enabled is_organization s back = not s.success && not (on_step s.step event)
  is_enabled is_organization s submit = not s.success && on_step s.step review && not s.is_pending
  is_enabled is_organization s (choose_event t) = not s.success && on_step s.step event
  is_enabled is_organization s (choose_org t) =
      not s.success && on_step s.step event && not is_organization
  is_enabled is_organization s (choose_role t) = not s.success && on_step s.step role
  is_enabled is_organization s (fill f t) = not s.success && on_step s.step personal
  is_enabled is_organization s fulfilled = s.is_pending
  is_enabled is_organization s (rejected d) = s.is_pending

  -- The error on display; an empty message falls back like any other detail.
  abbrev pub shown_error : Detail → Detail
  shown_error (text t) = text t
  shown_error (message t) = if is_empty t then other else text t
  shown_error other = other

  unfoldable pub handle : Event → State → State
  handle next s = record s { step = next_step s.step }
  handle back s = record s { step = previous_step s.step }
  handle submit s = record s {
    server_error = none;
    is_pending = true;
    sent = payload_of s ∷ s.sent;
  }
  handle (choose_event t) s = record s { event_id = t }
  handle (choose_org t) s = record s { org_id = none_if_empty t }
  handle (choose_role t) s = record s { organizer_role_id = t }
  handle (fill f t) s = record s { person = with_field f t s.person }
  handle fulfilled s = record s { is_pending = false; success = true }
  handle (rejected d) s = record s { is_pending = false; server_error = some (shown_error d) }

  -- The page after events, of which those that are not possible do nothing.
  unfoldable pub run : (is_organization : Bool) → List Event → State → State
  unfolding is_enabled handle
  run is_organization [] s = s
  run is_organization (e ∷ es) s =
      run is_organization es (if is_enabled is_organization s e then handle e s else s)

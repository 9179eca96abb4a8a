-- ===== src/Events/Listing.antt =====
-- The list of events (modules/events/components/EventList.tsx): the status of an event, the filters and
-- the pages. `new Date(s)` is a parameter: the time that it gives, and `none` for an invalid date.
pub mod Laws
mod Tests
use choschmous_v.Base.{
  ℕ, ◌+◌, ◌-◌, ◌*◌, ◌/◌, Bool, true, false, ◌&&◌, ◌||◌, Option, none, some, List, [], ◌∷◌, ◌++◌,
  ltb, leb, if◌then◌else◌, or_else, filter, Text, is_empty, starts_with, trim, to_lower,
}
use choschmous_v.Base.Slicing.{slice}

pub data Status : Type 0 where
  upcoming ongoing completed : Status

pub data StatusFilter : Type 0 where
  all : StatusFilter
  only : Status → StatusFilter

abbrev pub is_status : Status → Status → Bool
is_status upcoming upcoming = true
is_status ongoing ongoing = true
is_status completed completed = true
is_status _ _ = false

-- An event, without the fields that the list does not read.
pub record Listed : Type 0 where
  pub id : ℕ
  pub name : Text
  pub description : Option Text
  pub start_date : Text
  pub end_date : Text

-- `a < b` and `a >= b`, which an invalid date never satisfies.
abbrev pub is_before : ℕ → Option ℕ → Bool
is_before now none = false
is_before now (some d) = ltb now d

abbrev pub is_from : ℕ → Option ℕ → Bool
is_from now none = false
is_from now (some d) = leb d now

abbrev pub is_until : ℕ → Option ℕ → Bool
is_until now none = false
is_until now (some d) = leb now d

-- `text.includes(part)`
unfoldable pub contains : Text → Text → Bool
contains [] part = starts_with [] part
contains (c ∷ s) part = starts_with (c ∷ s) part || contains s part

abbrev pub page_size : ℕ
page_size = 10

module _ (date_of : Text → Option ℕ) (now : ℕ) where
  unfoldable pub get_status : Listed → Status
  get_status e =
      if is_before now (date_of e.start_date)
      then upcoming
      else if is_from now (date_of e.start_date) && is_until now (date_of e.end_date)
      then ongoing
      else completed

  abbrev pub matches_status : StatusFilter → Listed → Bool
  matches_status all e = true
  matches_status (only s) e = is_status s (get_status e)

  -- `${ev.name} ${ev.description ?? ""}`, with the query in it.
  abbrev pub matches_query : Text → Listed → Bool
  matches_query query e =
      is_empty (trim query)
      || contains (to_lower (e.name ++ 32 ∷ or_else e.description [])) (to_lower query)

  -- `filtered`, where the events are not there yet as `none`.
  unfoldable pub filtered : Text → StatusFilter → Option (List Listed) → List Listed
  unfolding get_status contains
  filtered query status none = []
  filtered query status (some es) =
      filter (λ e. matches_query query e && matches_status status e) es

-- `Math.max(1, Math.ceil(total / pageSize))`
unfoldable pub total_pages : ℕ → ℕ
total_pages total =
    let pages = (total + (page_size - 1)) / page_size in if ltb pages 1 then 1 else pages

unfoldable pub page_data {ℓ} : {A : Type ℓ} → (page : ℕ) → List A → List A
unfolding slice
page_data page xs = slice ((page - 1) * page_size) (page * page_size) xs

pub record State : Type 0 where
  pub query : Text
  pub status_filter : StatusFilter
  pub page : ℕ

abbrev pub initial : State
initial = record { query = []; status_filter = all; page = 1 }

pub data Event : Type 0 where
  change_query : Text → Event
  change_status : StatusFilter → Event
  press_previous press_next : Event

-- `pages` is the number of pages that the filters leave.
unfoldable pub handle : (pages : Text → StatusFilter → ℕ) → Event → State → State
handle pages (change_query q) s = record s { query = q; page = 1 }
handle pages (change_status f) s = record s { status_filter = f; page = 1 }
handle pages press_previous s = record s {
  page = if leb s.page 1 then s.page else if leb 1 (s.page - 1) then s.page - 1 else 1;
}
handle pages press_next s = record s {
  page =
      if leb (pages s.query s.status_filter) s.page
      then s.page
      else if leb (pages s.query s.status_filter) (s.page + 1)
      then pages s.query s.status_filter
      else s.page + 1;
}

-- Events, each with the time of the render that it comes to: the day is taken anew on each of them.
unfoldable pub run :
    (pages : (now : ℕ) → Text → StatusFilter → ℕ) → List (ℕ × Event) → State → State
unfolding handle
run pages [] s = s
run pages ((now, e) ∷ es) s = run pages es (handle (pages now) e s)

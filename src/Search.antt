-- ===== src/Search.antt =====
-- The command palette (frontend/src/modules/search): the hits of a search in groups, the highlighted
-- one, and the keys (components/CommandPalette.tsx, schema/search.schema.ts, hooks/useSearch.ts).
pub mod Laws
mod Tests
use choschmous_v.Base.{
  ℕ, zero, suc, ◌+◌, ◌-◌, ◌%◌, Bool, true, false, not, ◌&&◌, Option, none, some, List, [], ◌∷◌,
  ◌++◌, ltb, leb, if◌then◌else◌, ◌==◌, nat_eq, length, filter, Text, codes, text_eq, trim,
}
use choschmous_v.Base.Decimal.{show}

pub data SearchType : Type 0 where
  event : SearchType
  organization : SearchType
  athlete : SearchType

abbrev pub search_types : List SearchType
search_types = event ∷ organization ∷ athlete ∷ []

unfoldable pub is_type : SearchType → SearchType → Bool
is_type event event = true
is_type organization organization = true
is_type athlete athlete = true
is_type _ _ = false

pub record Hit : Type 0 where
  pub type_field : SearchType
  pub id : ℕ
  pub title : Text
  pub subtitle : Option Text

-- `routes.eventDetail(id)`, `routes.organizations` with the id, and `routes.registrationDetail(id)`.
abbrev pub path_of : SearchType → Text
path_of event = codes "/events/"
path_of organization = codes "/organizations/"
path_of athlete = codes "/registrations/"

unfoldable pub href_for_hit : Hit → Text
href_for_hit h = path_of h.type_field ++ show h.id

-- The hits of one type.
unfoldable pub items_of : SearchType → List Hit → List Hit
unfolding is_type
items_of t = filter (λ h. is_type h.type_field t)

-- The groups that are not empty, in the order of the types.
unfoldable pub groups_from : List SearchType → List Hit → List (SearchType × List Hit)
unfolding items_of
groups_from [] hits = []
groups_from (t ∷ ts) hits =
    let rest = groups_from ts hits in
    elim (items_of t hits) [ [] ↦ rest | h ∷ hs ↦ (t, h ∷ hs) ∷ rest ]

unfoldable pub grouped : List Hit → List (SearchType × List Hit)
unfolding groups_from
grouped hits = groups_from search_types hits

unfoldable pub flat_map : List (SearchType × List Hit) → List Hit
flat_map [] = []
flat_map ((t, items) ∷ gs) = items ++ flat_map gs

unfoldable pub flat : List Hit → List Hit
unfolding flat_map grouped
flat hits = flat_map (grouped hits)

-- Whether a query is sent: the palette is open, and at least two characters are typed.
unfoldable pub is_searched : Text → Bool → Bool
is_searched query open_now = open_now && leb 2 (length (trim query))

-- The palette, the hits on display, and the page that was navigated to last.
pub record State : Type 0 where
  pub is_open : Bool
  pub query : Text
  pub debounced : Text
  pub active_index : ℕ
  pub hits : List Hit
  pub location : Option Text

abbrev pub get_elem? {ℓ} : {A : Type ℓ} → List A → ℕ → Option A
get_elem? [] i = none
get_elem? (x ∷ xs) zero = some x
get_elem? (x ∷ xs) (suc i) = get_elem? xs i

-- `setOpen`, with the effect that follows: an opened palette starts at the first row, and a closed
-- one forgets the query.
unfoldable pub set_open : Bool → State → State
set_open b s =
    if b
    then record s { is_open = true; active_index = 0 }
    else record s { is_open = false; query = []; debounced = [] }

-- New hits, with the effect that keeps the highlighted row within bounds.
unfoldable pub show_hits : List Hit → State → State
unfolding flat
show_hits hits s = record s {
  hits = hits;
  active_index =
      if length (flat hits) == 0
      then 0
      else if leb s.active_index (length (flat hits) - 1)
      then s.active_index
      else length (flat hits) - 1;
}

unfoldable pub go : Hit → State → State
unfolding set_open href_for_hit
go h s = record (set_open false s) { location = some (href_for_hit h) }

pub data Key : Type 0 where
  escape : Key
  arrow_down : Key
  arrow_up : Key
  enter : Key
  other : Key

unfoldable pub on_key_down : Key → State → State
unfolding set_open flat go
on_key_down escape s = set_open false s
on_key_down arrow_down s = record s {
  active_index =
      if length (flat s.hits) == 0 then 0 else (s.active_index + 1) % length (flat s.hits);
}
on_key_down arrow_up s = record s {
  active_index =
      if length (flat s.hits) == 0
      then 0
      else (s.active_index + length (flat s.hits) - 1) % length (flat s.hits);
}
on_key_down enter s = elim (get_elem? (flat s.hits) s.active_index) [ none ↦ s | some h ↦ go h s ]
on_key_down other s = s

-- What happens to the palette. The rows, the keys and the field of an open one are on display only.
pub data Event : Type 0 where
  toggle : Event
  type_query : Text → Event
  debounce : Event
  answer : List Hit → Event
  key : Key → Event
  hover : (row : ℕ) → Event
  click : (row : ℕ) → Event

-- The mouse enters a row, or clicks it.
unfoldable pub on_hover : ℕ → State → State
unfolding flat
on_hover i s = if ltb i (length (flat s.hits)) then record s { active_index = i } else s

unfoldable pub on_click : ℕ → State → State
unfolding flat go
on_click i s = elim (get_elem? (flat s.hits) i) [ none ↦ s | some h ↦ go h s ]

unfoldable pub step : Event → State → State
unfolding set_open show_hits on_key_down on_hover on_click
step toggle s = set_open (not s.is_open) s
step (type_query q) s = if s.is_open then record s { query = q } else s
step debounce s = record s { debounced = s.query }
step (answer hits) s = show_hits hits s
step (key k) s = if s.is_open then on_key_down k s else s
step (hover i) s = if s.is_open then on_hover i s else s
step (click i) s = if s.is_open then on_click i s else s

unfoldable pub run : List Event → State → State
unfolding step
run [] s = s
run (e ∷ es) s = run es (step e s)

abbrev pub initial : State
initial = record {
  is_open = false;
  query = [];
  debounced = [];
  active_index = 0;
  hits = [];
  location = none;
}

-- ===== src/Search/Tests.antt =====
-- A palette on concrete inputs.
use choschmous_v.Base.{
  ◌<◌, ◌≡◌, refl, true, false, none, some, List, [], ◌∷◌, arith, nat_eq, length, codes, text_eq,
}
use choschmous_v.Base.Decimal.{show}
use choschmous_v.Search.{
  event, athlete, Hit, href_for_hit, flat, State, get_elem?, Event, toggle, type_query, debounce,
  answer, key, arrow_down, enter, step, run, initial,
}
use choschmous_v.Search.Laws.{enter_opens_row}

abbrev person : Hit
person = record { type_field = athlete; id = 5; title = codes "Dara"; subtitle = none }

abbrev games : Hit
games = record { type_field = event; id = 2; title = codes "Games"; subtitle = none }

abbrev found : List Hit
found = person ∷ games ∷ []

abbrev events : List Event
events = toggle ∷ type_query (codes "da") ∷ debounce ∷ answer found ∷ key arrow_down ∷ []

is_open : (run events initial).is_open ≡ true
unfolding run step
is_open = refl

has_rows : 0 < length (flat (run events initial).hits)
unfolding run step flat
has_rows = omega arith

enter_opens_row_example :
    (h : Hit) × (get_elem? (flat (run events initial).hits) (run events initial).active_index
      ≡ some h)
    × ((step (key enter) (run events initial)).location ≡ some (href_for_hit h))
    × ((step (key enter) (run events initial)).is_open ≡ false)
enter_opens_row_example = enter_opens_row events is_open has_rows

athlete_page : (step (key enter) (run events initial)).location ≡ some (codes "/registrations/5")
unfolding run step href_for_hit show
athlete_page = refl

abbrev second_row : State
second_row = record initial { is_open = true; hits = found; active_index = 1 }

in_range : second_row.active_index < length (flat second_row.hits)
unfolding flat
in_range = omega arith

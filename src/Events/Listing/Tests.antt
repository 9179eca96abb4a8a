-- ===== src/Events/Listing/Tests.antt =====
-- Twelve events, of which the second page is read.
use choschmous_v.Base.{
  ℕ, ◌≤◌, ◌≡◌, refl, Option, none, some, List, [], ◌∷◌, if◌then◌else◌, ◌==◌, nat_eq, length, Text,
  codes, text_eq, trim,
}
use choschmous_v.Events.Listing.{
  Listed, Event, total_pages, page_data, State, initial, press_next, run, handle, page_size,
  filtered,
}
use choschmous_v.Events.Listing.Laws.{pages_from, pages_of, left_in, run-pages}

abbrev game : ℕ → Listed
game n = record {
  id = n;
  name = codes "Games";
  description = none;
  start_date = codes "a";
  end_date = codes "b";
}

abbrev twelve : List Listed
twelve =
    game 1
    ∷ game 2
    ∷ game 3
    ∷ game 4
    ∷ game 5
    ∷ game 6
    ∷ game 7
    ∷ game 8
    ∷ game 9
    ∷ game 10
    ∷ game 11
    ∷ game 12
    ∷ []

-- The first date has come, the second one is over.
abbrev date_of : Text → Option ℕ
date_of t = if t == codes "a" then some 10 else some 20

abbrev on_page_two : State
on_page_two = record initial { page = 2 }

abbrev clicks : List (ℕ × Event)
clicks = (15, press_next) ∷ (15, press_next) ∷ []

one_click : on_page_two ≡ run (pages_of date_of (some twelve)) clicks initial
unfolding run handle filtered total_pages trim
one_click = refl

run-pages_example :
    (1 ≤ on_page_two.page)
    × (on_page_two.page ≤ total_pages (length (left_in date_of (some twelve) 15 on_page_two)))
    × (pages_from 1
          (total_pages (length (left_in date_of (some twelve) 15 on_page_two)))
          (left_in date_of (some twelve) 15 on_page_two)
        ≡ left_in date_of (some twelve) 15 on_page_two)
    × (length (page_data on_page_two.page (left_in date_of (some twelve) 15 on_page_two))
        ≤ page_size)
run-pages_example =
    run-pages date_of (some twelve) 15 clicks on_page_two one_click (refl, (refl, tt))

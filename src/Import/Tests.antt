-- ===== src/Import/Tests.antt =====
-- A category is chosen, and then another event.
use choschmous_v.Base.{◌+◌, ◌≡◌, refl, none, some, List, [], ◌∷◌, ◌++◌, All, length, codes}
use choschmous_v.Import.{
  Offers, Event, choose_event, choose_sport, choose_category, choose_file, press, validate, commit,
  answered, initial, run, is_enabled, handle, run_request, context,
}
use choschmous_v.Import.Laws.{IsOffered, run-IsOffered}

abbrev offers : Offers
offers = record {
  events = 1 ∷ 2 ∷ [];
  organizations = [];
  sports = 7 ∷ [];
  categories = λ e s. (e + 10) ∷ [];
}

abbrev clicks : List Event
clicks =
    choose_event 1
    ∷ choose_sport 7
    ∷ choose_category 11
    ∷ choose_file (some (codes "a"))
    ∷ press validate
    ∷ answered (some (codes "ok"))
    ∷ choose_event 2
    ∷ press commit
    ∷ choose_sport 7
    ∷ choose_category 12
    ∷ press commit
    ∷ []

run-IsOffered_example : All (λ r. IsOffered offers r.2) (run offers clicks initial).sent
run-IsOffered_example = run-IsOffered offers clicks

two_requests : length (run offers clicks initial).sent ≡ 2
unfolding run is_enabled handle run_request context
two_requests = refl

-- A request that fails leaves the report of the one before it on display.
failure_unseen : (run offers (clicks ++ answered none ∷ []) initial).report ≡ some (codes "ok")
unfolding run is_enabled handle run_request context
failure_unseen = refl

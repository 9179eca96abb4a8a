-- ===== src/Wizard/ByCategory/Previous.antt =====
-- The categories of an earlier event (modules/bycategory/adapters/bycategoryHttpAdapter.ts,
-- `fetchPreviousCategories`). What the server answers is a parameter: its events and the entries of an
-- event and a sport, each `none` if the request fails or the answer does not fit its schema.
use choschmous_v.Base.{
  ℕ, ◌<◌, ◌≡◌, refl, ap, ◌⊎◌, inl, inr, not, Option, none, some, List, [], ◌∷◌, ◌++◌, map, arith,
  ◌==◌, nat_eq, or_else, All, length, filter, Text, text_eq,
}
use choschmous_v.Wizard.ByCategory.{Gender, mixed, CategoryRow}

-- The fields of `CategorySurveyEntry` that are read.
pub record Entry : Type 0 where
  pub category : Text
  pub gender : Option Gender

unfoldable pub row_of : Entry → CategoryRow
row_of e = record { name = e.category; gender = or_else e.gender mixed }

-- The rows of the entries, if there are any.
abbrev pub rows_or : Option (List Entry) → List CategoryRow → List CategoryRow
rows_or none rest = rest
rows_or (some []) rest = rest
rows_or (some (e ∷ es)) rest = map row_of (e ∷ es)

-- The loop: the rows of the first event that has entries. A failing request is passed over.
unfoldable pub first_rows : (ℕ → Option (List Entry)) → List ℕ → List CategoryRow
unfolding row_of
first_rows entries [] = []
first_rows entries (event ∷ events) = rows_or (entries event) (first_rows entries events)

-- The events but the one that is left out.
unfoldable pub other_events : ℕ → List ℕ → List ℕ
other_events excluded = filter (λ id. not (id == excluded))

unfoldable pub fetch_previous_categories :
    Option (List ℕ)
    → (ℕ → ℕ → Option (List Entry))
    → (sport_id exclude_event_id : ℕ) → List CategoryRow
unfolding first_rows other_events
fetch_previous_categories none entries sport_id excluded = []
fetch_previous_categories (some events) entries sport_id excluded =
    first_rows (λ id. entries id sport_id) (other_events excluded events)

-- An event has nothing to copy.
abbrev pub HasNone : (ℕ → Option (List Entry)) → ℕ → Type 0
HasNone entries id = (entries id ≡ none) ⊎ (entries id ≡ some [])

-- The events before this one in the list have nothing to copy, and this one has the rows.
pub record IsFirst (entries : ℕ → Option (List Entry)) (ids : List ℕ) (rows : List CategoryRow)
    : Type 0 where
  pub before : List ℕ
  pub event : ℕ
  pub after : List ℕ
  pub found : List Entry
  pub split : ids ≡ before ++ event ∷ after
  pub nothing : All (HasNone entries) before
  pub answered : entries event ≡ some found
  pub copied : rows ≡ map row_of found
  pub filled : 0 < length found

-- What the loop answers: no rows, and then no event has any, or those of the first that has.
IsAnswer : (ℕ → Option (List Entry)) → List ℕ → List CategoryRow → Type 0
IsAnswer entries ids rows = (All (HasNone entries) ids × (rows ≡ [])) ⊎ IsFirst entries ids rows

pass_over :
    (entries : ℕ → Option (List Entry)) (id : ℕ) (ids : List ℕ) (rows : List CategoryRow)
    → HasNone entries id
    → IsAnswer entries ids rows
    → IsAnswer entries (id ∷ ids) rows
unfolding IsAnswer
pass_over entries id ids rows h (inl (n, e)) = inl ((h, n), e)
pass_over entries id ids rows h (inr w) = inr (record {
  before = id ∷ w.before;
  event = w.event;
  after = w.after;
  found = w.found;
  split = ap (λ xs. id ∷ xs) w.split;
  nothing = (h, w.nothing);
  answered = w.answered;
  copied = w.copied;
  filled = w.filled;
})

take_rows :
    (entries : ℕ → Option (List Entry)) (id : ℕ) (ids : List ℕ) (rest : List CategoryRow)
    (o : Option (List Entry))
    → entries id ≡ o
    → IsAnswer entries ids rest
    → IsAnswer entries (id ∷ ids) (rows_or o rest)
unfolding IsAnswer
take_rows entries id ids rest none q k = pass_over entries id ids rest (inl q) k
take_rows entries id ids rest (some []) q k = pass_over entries id ids rest (inr q) k
take_rows entries id ids rest (some (e ∷ es)) q k = inr (record {
  before = [];
  event = id;
  after = ids;
  found = e ∷ es;
  split = refl;
  nothing = tt;
  answered = q;
  copied = refl;
  filled = omega arith;
})

first_rows-IsAnswer :
    (entries : ℕ → Option (List Entry)) (ids : List ℕ)
    → IsAnswer entries ids (first_rows entries ids)
unfolding first_rows IsAnswer
first_rows-IsAnswer entries [] = inl (tt, refl)
first_rows-IsAnswer entries (id ∷ ids) =
    take_rows entries id ids (first_rows entries ids) (entries id) refl
      (first_rows-IsAnswer entries ids)

-- Of the events but the one left out, in the order of the server's answer, the rows are those of the
-- first event with entries, requests that fail being passed over; there are none exactly if no event
-- has entries.
pub previous_categories-IsAnswer :
    (events : List ℕ) (entries : ℕ → ℕ → Option (List Entry)) (sport_id excluded : ℕ)
    → (All (HasNone (λ id. entries id sport_id)) (other_events excluded events)
        × (fetch_previous_categories (some events) entries sport_id excluded ≡ []))
      ⊎ IsFirst
          (λ id. entries id sport_id)
          (other_events excluded events)
          (fetch_previous_categories (some events) entries sport_id excluded)
unfolding fetch_previous_categories IsAnswer
previous_categories-IsAnswer events entries sport_id excluded =
    first_rows-IsAnswer (λ id. entries id sport_id) (other_events excluded events)

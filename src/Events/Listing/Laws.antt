-- ===== src/Events/Listing/Laws.antt =====
-- The pages are the list, cut into pieces, and the page on display is one of them.
use choschmous_v.Base.{
  ℕ, zero, suc, ◌+◌, ◌-◌, ◌*◌, ◌≤◌, ◌≡◌, refl, sym, ap, ◌∙◌, subst, Option, List, [], ◌∷◌, ◌++◌,
  arith, nat_eq, All, length, Text, text_eq,
}
use choschmous_v.Base.Slicing.{take, drop, slice, take-drop, drop_all, drop-drop, length-take}
use choschmous_v.Events.Listing.{
  Listed, StatusFilter, filtered, page_size, total_pages, page_data, State, initial, Event,
  change_query, change_status, press_previous, press_next, handle, run,
}

-- `count` pages from the page `page` on, one behind the other.
unfoldable pub pages_from {ℓ} : {A : Type ℓ} → (page count : ℕ) → List A → List A
pages_from page zero xs = []
pages_from page (suc count) xs = page_data page xs ++ pages_from (suc page) count xs

page_data-take {ℓ} :
    {A : Type ℓ} (p : ℕ) (xs : List A)
    → page_data (suc p) xs ≡ take page_size (drop (p * page_size) xs)
unfolding page_data slice
page_data-take p xs =
    let start : (suc p - 1) * page_size ≡ p * page_size = omega arith in
    let size : suc p * page_size - p * page_size ≡ page_size = omega arith in rw (start, size) refl

pages_from-drop {ℓ} :
    {A : Type ℓ} (p count : ℕ) (xs : List A)
    → length xs ≤ (p + count) * page_size
    → pages_from (suc p) count xs ≡ drop (p * page_size) xs
unfolding pages_from page_data slice
pages_from-drop p zero xs h = sym (drop_all (p * page_size) xs (omega (arith, h)))
pages_from-drop p (suc count) xs h =
    let rest = pages_from-drop (suc p) count xs (omega (arith, h)) in
    let next : drop (suc p * page_size) xs ≡ drop page_size (drop (p * page_size) xs) =
      ap (λ k. drop k xs) (omega arith) ∙ sym (drop-drop page_size (p * page_size) xs) in
    rw (page_data-take p xs, rest, next) (take-drop page_size (drop (p * page_size) xs))

total_pages_enough : (n : ℕ) → n ≤ total_pages n * page_size
unfolding total_pages
total_pages_enough n = ground arith

length-page_data {ℓ} : {A : Type ℓ} (p : ℕ) (xs : List A) → length (page_data p xs) ≤ page_size
unfolding page_data slice
length-page_data p xs =
    ground
      (arith, length-take (p * page_size - (p - 1) * page_size) (drop ((p - 1) * page_size) xs))

drop_zero {ℓ} : {A : Type ℓ} (xs : List A) → drop (0 * page_size) xs ≡ xs
unfolding drop
drop_zero xs = refl

-- The page on display is one of the pages.
IsPage : (Text → StatusFilter → ℕ) → State → Type 0
IsPage pages s = (1 ≤ s.page) × (s.page ≤ pages s.query s.status_filter)

module _ (pages : Text → StatusFilter → ℕ)
    (some_page : (q : Text) (f : StatusFilter) → 1 ≤ pages q f) where
  handle-IsPage : (e : Event) (s : State) → IsPage pages s → IsPage pages (handle pages e s)
  unfolding handle IsPage
  handle-IsPage (change_query q) s h = (omega arith, some_page q s.status_filter)
  handle-IsPage (change_status f) s h = (omega arith, some_page s.query f)
  handle-IsPage press_previous s h = ground arith
  handle-IsPage press_next s h = ground (arith, some_page s.query s.status_filter)

-- The numbers of pages at the times of the events are those at `now`.
abbrev pub IsSteady : (ℕ → Text → StatusFilter → ℕ) → ℕ → List (ℕ × Event) → Type 0
IsSteady pages now es = All (λ (x : ℕ × Event). pages x.0 ≡ pages now) es

run-IsPage :
    (pages : ℕ → Text → StatusFilter → ℕ)
    → ((t : ℕ) (q : Text) (f : StatusFilter) → 1 ≤ pages t q f)
    → (now : ℕ) (es : List (ℕ × Event)) (s : State) → IsSteady pages now es
    → IsPage (pages now) s
    → IsPage (pages now) (run pages es s)
unfolding run
run-IsPage pages some_page now [] s k h = h
run-IsPage pages some_page now ((t, e) ∷ es) s (k, ks) h =
    run-IsPage pages some_page now es (handle (pages t) e s) ks (
      subst (λ p. IsPage (pages now) (handle p e s)) (sym k)
        (handle-IsPage (pages now) (some_page now) e s h))

total_pages_some : (n : ℕ) → 1 ≤ total_pages n
unfolding total_pages
total_pages_some n = ground arith

-- The events that are left, and the number of their pages.
module _ (date_of : Text → Option ℕ) (events : Option (List Listed)) where
  abbrev pub pages_of : (now : ℕ) → Text → StatusFilter → ℕ
  pages_of now q f = total_pages (length (filtered date_of now q f events))

  abbrev pub left_in : (now : ℕ) → State → List Listed
  left_in now s = filtered date_of now s.query s.status_filter events

  -- While the events stay the same, and time does not change how many pages a search and a filter leave,
  -- whatever the user searches, filters and pages through, the page on display is one of the pages of
  -- the events that are left; these pages, one behind the other, are those events, in their order, each
  -- of them once; and no page has more than ten.
  pub run-pages :
      (now : ℕ) (es : List (ℕ × Event)) (s : State)
      → s ≡ run pages_of es initial
      → IsSteady pages_of now es
      → (1 ≤ s.page)
        × (s.page ≤ total_pages (length (left_in now s)))
        × (pages_from 1 (total_pages (length (left_in now s))) (left_in now s) ≡ left_in now s)
        × (length (page_data s.page (left_in now s)) ≤ page_size)
  unfolding IsPage
  run-pages now es s q k =
      let start : IsPage (pages_of now) initial =
        (omega arith, total_pages_some (length (left_in now initial))) in
      let (low, high) = subst (IsPage (pages_of now)) (sym q) (
        run-IsPage pages_of (λ t x f. total_pages_some (length (filtered date_of t x f events))) now
          es initial k start) in
      let left = left_in now s in
      (
        low,
        high,
        pages_from-drop 0 (total_pages (length left)) left
              (omega (arith, total_pages_enough (length left)))
            ∙ drop_zero left,
        length-page_data s.page left,
      )

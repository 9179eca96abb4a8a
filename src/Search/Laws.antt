-- ===== src/Search/Laws.antt =====
-- The rows of the palette are the hits, and a row is highlighted whenever there is one.
use choschmous_v.Base.{
  ℕ, zero, suc, ◌+◌, ◌-◌, ◌%◌, ◌≤◌, ◌<◌, ◌≡◌, refl, ap, ◌∙◌, inl, inr, Bool, true, false, not,
  Option, none, some, List, [], ◌∷◌, ◌++◌, arith, ltb, if◌then◌else◌, Bool-cases, ◌==◌, nat_eq,
  length, text_eq,
}
use mathlib.Core.List.Perm
use mathlib.Core.List.{append-nil, append_assoc, Perm, perm_middle}
use native.Mathlib.Nat.{mod-eq_of_lt, mod_self, mod-add-mod, add-mod_right}
use choschmous_v.Search.{
  SearchType, event, organization, athlete, search_types, is_type, Hit, href_for_hit, items_of,
  groups_from, grouped, flat_map, flat, State, get_elem?, set_open, show_hits, go, Key, escape,
  arrow_down, arrow_up, enter, other, on_key_down, Event, toggle, type_query, debounce, answer, key,
  hover, click, on_hover, on_click, step, run, initial,
}

-- The highlighted row is one of the rows; without rows it is the first.
abbrev pub InBounds : State → Type 0
InBounds s = s.active_index ≤ length (flat s.hits) - 1

set_open-InBounds : (b : Bool) (s : State) → InBounds s → InBounds (set_open b s)
unfolding set_open
set_open-InBounds true s h = omega arith
set_open-InBounds false s h = h

go-InBounds : (x : Hit) (s : State) → InBounds s → InBounds (go x s)
unfolding go
go-InBounds x s h = set_open-InBounds false s h

show_hits-InBounds : (hits : List Hit) (s : State) → InBounds (show_hits hits s)
unfolding show_hits
show_hits-InBounds hits s = ground arith

open_row-InBounds :
    (o : Option Hit) (s : State) → InBounds s → InBounds (elim o [ none ↦ s | some h ↦ go h s ])
open_row-InBounds none s h = h
open_row-InBounds (some x) s h = go-InBounds x s h

on_key_down-InBounds : (k : Key) (s : State) → InBounds s → InBounds (on_key_down k s)
unfolding on_key_down
on_key_down-InBounds escape s h = set_open-InBounds false s h
on_key_down-InBounds arrow_down s h = ground arith
on_key_down-InBounds arrow_up s h = ground arith
on_key_down-InBounds enter s h = open_row-InBounds (get_elem? (flat s.hits) s.active_index) s h
on_key_down-InBounds other s h = h

on_hover-InBounds : (i : ℕ) (s : State) → InBounds s → InBounds (on_hover i s)
unfolding on_hover
on_hover-InBounds i s h = ground arith

on_click-InBounds : (i : ℕ) (s : State) → InBounds s → InBounds (on_click i s)
unfolding on_click
on_click-InBounds i s h = open_row-InBounds (get_elem? (flat s.hits) i) s h

when_open : (b : Bool) (s t : State) → InBounds s → InBounds t → InBounds (if b then t else s)
when_open true s t h k = k
when_open false s t h k = h

step-InBounds : (e : Event) (s : State) → InBounds s → InBounds (step e s)
unfolding step
step-InBounds toggle s h = set_open-InBounds (not s.is_open) s h
step-InBounds (type_query q) s h = when_open s.is_open s (record s { query = q }) h h
step-InBounds debounce s h = h
step-InBounds (answer hits) s h = show_hits-InBounds hits s
step-InBounds (key k) s h = when_open s.is_open s (on_key_down k s) h (on_key_down-InBounds k s h)
step-InBounds (hover i) s h = when_open s.is_open s (on_hover i s) h (on_hover-InBounds i s h)
step-InBounds (click i) s h = when_open s.is_open s (on_click i s) h (on_click-InBounds i s h)

run-InBounds : (es : List Event) (s : State) → InBounds s → InBounds (run es s)
unfolding run
run-InBounds [] s h = h
run-InBounds (e ∷ es) s h = run-InBounds es (step e s) (step-InBounds e s h)

get_elem?_total : (xs : List Hit) (i : ℕ) → i < length xs → (x : Hit) × (get_elem? xs i ≡ some x)
get_elem?_total [] i h = absurd (omega arith)
get_elem?_total (x ∷ xs) zero h = (x, refl)
get_elem?_total (x ∷ xs) (suc i) h = get_elem?_total xs i (omega arith)

entered :
    (s : State) (h : Hit)
    → s.is_open ≡ true
    → get_elem? (flat s.hits) s.active_index ≡ some h
    → step (key enter) s ≡ go h s
unfolding step on_key_down
entered s h o q =
    ap (λ b. if b then on_key_down enter s else s) o
    ∙ ap (λ r. elim r [ none ↦ s | some x ↦ go x s ]) q

-- After any events, if the palette is open and has a row, the key "enter" closes it and navigates to
-- the page of the highlighted row, which is one of the rows.
pub enter_opens_row :
    (es : List Event)
    → (run es initial).is_open ≡ true
    → 0 < length (flat (run es initial).hits)
    → (h : Hit) × (get_elem? (flat (run es initial).hits) (run es initial).active_index ≡ some h)
      × ((step (key enter) (run es initial)).location ≡ some (href_for_hit h))
      × ((step (key enter) (run es initial)).is_open ≡ false)
unfolding step on_key_down go set_open
enter_opens_row es o lt =
    let (h, q) =
      get_elem?_total (flat (run es initial).hits) (run es initial).active_index
        (omega (arith, run-InBounds es initial (omega arith))) in
    let e = entered (run es initial) h o q in (h, q, ap (λ s. s.location) e, ap (λ s. s.is_open) e)

the_sum : (i n : ℕ) → i + 1 + n - 1 ≡ i + n
the_sum i n = omega arith

before : (i n : ℕ) → i + 1 ≡ n → 0 + n - 1 ≡ i
before i n k = omega arith

after : (i n : ℕ) → i < n → i + n - 1 + 1 ≡ i + n
after i n h = omega arith

down_up : (i n : ℕ) → i < n → ((i + 1) % n + n - 1) % n ≡ i
down_up i n h = elim (Bool-cases (ltb (i + 1) n)) [
  | inl c ↦
      rw (mod-eq_of_lt {n = i + 1} {m = n} (ground arith))
        (ap (λ z. z % n) (the_sum i n) ∙ add-mod_right i n ∙ mod-eq_of_lt h)
  | inr c ↦
      let k : i + 1 ≡ n = ground arith in
      rw (ap (λ z. z % n) k ∙ mod_self n) (ap (λ z. z % n) (before i n k) ∙ mod-eq_of_lt h)
]

up_down : (i n : ℕ) → i < n → ((i + n - 1) % n + 1) % n ≡ i
up_down i n h =
    mod-add-mod (i + n - 1) n 1 ∙ ap (λ z. z % n) (after i n h) ∙ add-mod_right i n ∙ mod-eq_of_lt h

-- The arrow keys undo one another while the highlighted row is one of the rows.
pub arrows_undo :
    (s : State)
    → s.active_index < length (flat s.hits)
    → ((on_key_down arrow_up (on_key_down arrow_down s)).active_index ≡ s.active_index)
      × ((on_key_down arrow_down (on_key_down arrow_up s)).active_index ≡ s.active_index)
unfolding on_key_down
arrows_undo s h =
    let z : (length (flat s.hits) == 0) ≡ false = ground arith in
    rw z (
      down_up s.active_index (length (flat s.hits)) h,
      up_down s.active_index (length (flat s.hits)) h,
    )

one_group :
    (t : SearchType) (items : List Hit) (rest : List (SearchType × List Hit))
    → flat_map (elim items [ [] ↦ rest | h ∷ hs ↦ (t, h ∷ hs) ∷ rest ]) ≡ items ++ flat_map rest
unfolding flat_map
one_group t [] rest = refl
one_group t (h ∷ hs) rest = refl

items : List SearchType → List Hit → List Hit
items [] hits = []
items (t ∷ ts) hits = items_of t hits ++ items ts hits

flat_map-groups_from :
    (ts : List SearchType) (hits : List Hit) → flat_map (groups_from ts hits) ≡ items ts hits
unfolding groups_from flat_map items
flat_map-groups_from [] hits = refl
flat_map-groups_from (t ∷ ts) hits =
    one_group t (items_of t hits) (groups_from ts hits)
    ∙ ap (λ xs. items_of t hits ++ xs) (flat_map-groups_from ts hits)

-- A hit in front goes to the front of its group.
in_front :
    (e o a : List Hit) (hits : List Hit) (h : Hit) (t : SearchType)
    → Perm (e ++ (o ++ a)) hits
    → Perm
        ((if is_type t event then h ∷ e else e)
          ++ ((if is_type t organization then h ∷ o else o)
              ++ (if is_type t athlete then h ∷ a else a)))
        (h ∷ hits)
unfolding is_type
in_front e o a hits h event p = Perm.cons h p
in_front e o a hits h organization p = Perm.trans (perm_middle e (o ++ a)) (Perm.cons h p)
in_front e o a hits h athlete p =
    rw (← append_assoc e o (h ∷ a))
      (Perm.trans (perm_middle (e ++ o) a) (Perm.cons h (rw (append_assoc e o a) p)))

items-perm :
    (hits : List Hit)
    → Perm (items_of event hits ++ (items_of organization hits ++ items_of athlete hits)) hits
unfolding items_of
items-perm [] = Perm.refl []
items-perm (h ∷ hs) =
    in_front (items_of event hs) (items_of organization hs) (items_of athlete hs) hs h h.type_field
      (items-perm hs)

-- The rows are the hits, each as often as the server answers it, in groups: the events, then the
-- organizations, then the athletes, each group in the order of the answer.
pub flat-perm :
    (hits : List Hit)
    → (flat hits ≡ items_of event hits ++ (items_of organization hits ++ items_of athlete hits))
      × Perm (flat hits) hits
unfolding flat grouped items
flat-perm hits =
    let q : flat hits
        ≡ items_of event hits ++ (items_of organization hits ++ items_of athlete hits) =
      flat_map-groups_from search_types hits
      ∙ ap (λ xs. items_of event hits ++ (items_of organization hits ++ xs))
          (append-nil (items_of athlete hits)) in
    (q, rw q (items-perm hits))

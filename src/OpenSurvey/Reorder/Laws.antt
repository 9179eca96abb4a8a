-- ===== src/OpenSurvey/Reorder/Laws.antt =====
-- A move of a field exchanges it with its neighbour in the list that is read afterwards.
use choschmous_v.Base.{
  ℕ, zero, suc, ◌≤◌, ◌<◌, ◌≡◌, refl, sym, ap, ◌∙◌, subst, inl, inr, true, List, [], ◌∷◌, map, arith,
  ltb, if◌then◌else◌, Bool-cases, All, length, filter,
}
use choschmous_v.Base.Sorting.{sort}
use choschmous_v.OpenSurvey.Builder.{FieldDef}
use choschmous_v.OpenSurvey.Reorder.{
  ReorderItem, Direction, up, down, target, exchange, numbered, is_changed, handle_move, before,
  updated, distinct, FieldStore, send, move, move_all, greatest, next_sort_order,
}
use choschmous_v.OpenSurvey.Reorder.Updates.{ids-renumbered, distinct_items, distinct-ids, reread}
use choschmous_v.OpenSurvey.Reorder.Moved.{
  moved, moved_by, moved_all, ids, moved-end, exchange_down, exchange_up, map-moved, distinct-moved,
}

updated-nil : (fs : List FieldDef) → map (updated []) fs ≡ fs
unfolding updated
updated-nil [] = refl
updated-nil (f ∷ fs) = ap (◌∷◌ f) (updated-nil fs)

length-ids : (fs : List FieldDef) → length (ids fs) ≡ length fs
length-ids [] = refl
length-ids (f ∷ fs) = ap suc (length-ids fs)

module _ (server : FieldStore) where
  list-send :
      (items : List ReorderItem) (s : server.Store)
      → distinct (map (λ i. i.field_id) items) ≡ true
      → server.list_fields (send server items s)
        ≡ sort before (map (updated items) (server.list_fields s))
  list-send [] s d =
      sym (server.list_ordered s) ∙ ap (sort before) (sym (updated-nil (server.list_fields s)))
  list-send (item ∷ items) s d = server.list_reordered (item ∷ items) s d

  -- What is read after the updates for a list in which the neighbours at `i` changed places.
  ids_after :
      (i : ℕ) (s : server.Store) (g : List FieldDef)
      → g ≡ moved i (server.list_fields s)
      → distinct (ids (server.list_fields s)) ≡ true
      → ids (
          server.list_fields
            (send server (filter (is_changed (server.list_fields s)) (numbered 0 g)) s))
        ≡ moved i (ids (server.list_fields s))
  ids_after i s g p d =
      let fs = server.list_fields s in
      let p_sent = is_changed fs in
      let sent =
        list-send (filter p_sent (numbered 0 (moved i fs))) s
          (distinct_items p_sent 0 (moved i fs) (distinct-ids i fs d)) in
      subst
        (λ x.
          ids (server.list_fields (send server (filter p_sent (numbered 0 x)) s))
          ≡ moved i (ids fs))
        (sym p)
        (ap ids (sent ∙ reread i fs d) ∙ ids-renumbered 0 (moved i fs) ∙ map-moved (λ f. f.id) i fs)

  ids_unmoved :
      (i : ℕ) (s : server.Store)
      → length (server.list_fields s) ≤ suc i
      → ids (server.list_fields s) ≡ moved i (ids (server.list_fields s))
  ids_unmoved i s h = sym (
      moved-end i (ids (server.list_fields s))
        (omega (arith, h, length-ids (server.list_fields s))))

  ids-move :
      (m : ℕ × Direction) (s : server.Store)
      → distinct (ids (server.list_fields s)) ≡ true
      → ids (server.list_fields (move server m s)) ≡ moved_by m (ids (server.list_fields s))
  unfolding move target handle_move
  ids-move (zero, up) s d = refl
  ids-move (suc i, up) s d = elim (Bool-cases (ltb i (length (server.list_fields s)))) [
    | inl b ↦ rw b (
        ids_after i s (exchange (suc i) i (server.list_fields s))
          (exchange_up i (server.list_fields s)) d)
    | inr b ↦ rw b (ids_unmoved i s (ground arith))
  ]
  ids-move (i, down) s d = elim (Bool-cases (ltb (suc i) (length (server.list_fields s)))) [
    | inl b ↦ rw b (
        ids_after i s (exchange i (suc i) (server.list_fields s))
          (exchange_down i (server.list_fields s)) d)
    | inr b ↦ rw b (ids_unmoved i s (ground arith))
  ]

distinct-moved_by : (m : ℕ × Direction) (xs : List ℕ) → distinct (moved_by m xs) ≡ distinct xs
distinct-moved_by (zero, up) xs = refl
distinct-moved_by (suc i, up) xs = distinct-moved i xs
distinct-moved_by (i, down) xs = distinct-moved i xs

-- Any sequence of clicks on the buttons "up" and "down" of the fields of an event, each on the list
-- that is read after the one before, arranges the fields as the clicks say: each one exchanges a field
-- with its neighbour and leaves the others in their order, whatever the sort orders were, and does
-- nothing at the ends of the list. The fields have different ids.
pub move_all_refines :
    (server : FieldStore) (ms : List (ℕ × Direction)) (s : server.Store)
    → distinct (ids (server.list_fields s)) ≡ true
    → ids (server.list_fields (move_all server ms s)) ≡ moved_all ms (ids (server.list_fields s))
unfolding move_all
move_all_refines server [] s d = refl
move_all_refines server (m ∷ ms) s d =
    let step = ids-move server m s d in
    move_all_refines server ms (move server m s)
      (ap distinct step ∙ distinct-moved_by m (ids (server.list_fields s)) ∙ d)
    ∙ ap (moved_all ms) step

greatest_bound : (n : ℕ) (fs : List FieldDef) → n ≤ greatest n fs
greatest_bound n [] = omega arith
greatest_bound n (f ∷ fs) =
    let m = if ltb n f.sort_order then f.sort_order else n in ground (arith, greatest_bound m fs)

greatest-All : (n : ℕ) (fs : List FieldDef) → All (λ f. f.sort_order < suc (greatest n fs)) fs
greatest-All n [] = tt
greatest-All n (f ∷ fs) =
    let m = if ltb n f.sort_order then f.sort_order else n in
    (ground (arith, greatest_bound m fs), greatest-All m fs)

-- A new field comes behind every other one.
pub next_sort_order-All : (fs : List FieldDef) → All (λ f. f.sort_order < next_sort_order fs) fs
unfolding next_sort_order
next_sort_order-All [] = tt
next_sort_order-All (f ∷ fs) =
    (omega (arith, greatest_bound f.sort_order fs), greatest-All f.sort_order fs)

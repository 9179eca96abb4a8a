-- ===== src/OpenSurvey/Reorder/Tests.antt =====
-- A server that keeps the fields in order, and two clicks.
use choschmous_v.Base.{ℕ, ◌≡◌, refl, true, false, none, List, [], ◌∷◌, map, arith, All, codes}
use choschmous_v.Base.Sorting.{insert, sort, IsSorted, sort-IsSorted}
use choschmous_v.OpenSurvey.Builder.{FieldDef}
use choschmous_v.OpenSurvey.Reorder.{up, down, before, updated, FieldStore, move_all}
use choschmous_v.OpenSurvey.Reorder.Moved.{moved, moved_all, ids}
use choschmous_v.OpenSurvey.Reorder.Laws.{move_all_refines}

before_asym : (a b : FieldDef) → before a b ≡ true → before b a ≡ false
before_asym a b h = ground arith

before_trans : (a b c : FieldDef) → before b a ≡ false → before c b ≡ false → before c a ≡ false
before_trans a b c h k = ground arith

insert_front :
    (x : FieldDef) (ys : List FieldDef)
    → All (λ y. before y x ≡ false) ys
    → insert before x ys ≡ x ∷ ys
unfolding insert
insert_front x [] h = refl
insert_front x (y ∷ ys) (h, _) = rw h refl

sorted_fixed : (xs : List FieldDef) → IsSorted before xs → sort before xs ≡ xs
unfolding sort
sorted_fixed [] h = refl
sorted_fixed (x ∷ xs) (h, k) = rw (sorted_fixed xs k) (insert_front x xs h)

record Rows : Type 0 where
  fields : List FieldDef
  ordered : sort before fields ≡ fields

abbrev server : FieldStore
server = record {
  Store = Rows;
  list_fields = λ s. s.fields;
  reorder_fields = λ items s. record {
    fields = sort before (map (updated items) s.fields);
    ordered =
        sorted_fixed (sort before (map (updated items) s.fields))
          (sort-IsSorted before before_asym before_trans (map (updated items) s.fields));
  };
  list_ordered = λ s. s.ordered;
  list_reordered = λ items s d. refl;
}

abbrev field : ℕ → ℕ → FieldDef
field id order = record {
  id = id;
  event_id = 1;
  label_kh = codes "a";
  label_en = none;
  field_type = codes "text";
  options = none;
  required = true;
  sort_order = order;
  active = true;
  created_at = none;
}

-- Two of the fields have the same sort order.
rows : Rows
unfolding insert sort
rows = record { fields = field 4 0 ∷ field 5 0 ∷ field 9 3 ∷ []; ordered = refl }

move_all_refines_example :
    ids (server.list_fields (move_all server ((0, down) ∷ (2, up) ∷ []) rows))
    ≡ moved_all ((0, down) ∷ (2, up) ∷ []) (ids (server.list_fields rows))
unfolding rows
move_all_refines_example = move_all_refines server ((0, down) ∷ (2, up) ∷ []) rows refl

two_moves :
    ids (server.list_fields (move_all server ((0, down) ∷ (2, up) ∷ []) rows)) ≡ 5 ∷ 9 ∷ 4 ∷ []
unfolding rows moved
two_moves = move_all_refines server ((0, down) ∷ (2, up) ∷ []) rows refl

-- ===== src/OpenSurvey/Reorder/Updates.antt =====
-- The updates that a move sends, and the list that is read after them.
use choschmous_v.Base.{
  ℕ, zero, suc, ◌<◌, ◌≡◌, refl, sym, ap, ◌∙◌, inl, inr, Bool, true, false, some, List, [], ◌∷◌, map,
  arith, ltb, Bool-cases, ◌==◌, nat_eq, All, filter, includes, text_eq,
}
use choschmous_v.Base.Sorting.{insert, sort}
use choschmous_v.OpenSurvey.Builder.{FieldDef}
use choschmous_v.OpenSurvey.Reorder.{
  ReorderItem, numbered, find_field, is_changed, before, updated, distinct,
}
use choschmous_v.OpenSurvey.Reorder.Moved.{
  moved, ids, moved_twice, map-moved, distinct-moved, All-moved,
}

-- The fields with the sort orders `n`, `n + 1`, …
unfoldable pub renumbered : ℕ → List FieldDef → List FieldDef
renumbered n [] = []
renumbered n (f ∷ fs) = record f { sort_order = n } ∷ renumbered (suc n) fs

pub ids-renumbered : (n : ℕ) (fs : List FieldDef) → ids (renumbered n fs) ≡ ids fs
unfolding renumbered
ids-renumbered n [] = refl
ids-renumbered n (f ∷ fs) = ap (◌∷◌ f.id) (ids-renumbered (suc n) fs)

-- Sorting puts two neighbours that were exchanged back.
insert_least :
    (n m : ℕ) (f : FieldDef) (fs : List FieldDef)
    → n < m
    → insert before (record f { sort_order = n }) (renumbered m fs)
      ≡ record f { sort_order = n } ∷ renumbered m fs
unfolding insert renumbered
insert_least n m f [] h = refl
insert_least n m f (g ∷ fs) h =
    let a : ltb m n ≡ false = ground arith in
    let b : (m == n) ≡ false = ground arith in rw (a, b) refl

sort-renumbered : (n : ℕ) (fs : List FieldDef) → sort before (renumbered n fs) ≡ renumbered n fs
unfolding sort renumbered
sort-renumbered n [] = refl
sort-renumbered n (f ∷ fs) =
    rw (sort-renumbered (suc n) fs) (insert_least n (suc n) f fs (omega arith))

sort-moved :
    (i n : ℕ) (fs : List FieldDef) → sort before (moved i (renumbered n fs)) ≡ renumbered n fs
unfolding sort moved renumbered
sort-moved i n [] = refl
sort-moved zero n (x ∷ []) = sort-renumbered n (x ∷ [])
sort-moved zero n (x ∷ y ∷ r) =
    let first : ltb n (suc n) ≡ true = ground arith in
    rw (sort-renumbered (suc (suc n)) r, insert_least n (suc (suc n)) x r (omega arith), first)
      (ap (◌∷◌ (record x { sort_order = n }))
        (insert_least (suc n) (suc (suc n)) y r (omega arith)))
sort-moved (suc i) n (x ∷ r) =
    rw (sort-moved i (suc n) r) (insert_least n (suc n) x r (omega arith))

-- The updates that a move sends.
absent :
    (p : ReorderItem → Bool) (n id : ℕ) (fs : List FieldDef)
    → includes (ids fs) id ≡ false
    → includes (map (λ i. i.field_id) (filter p (numbered n fs))) id ≡ false
unfolding numbered
absent p n id [] h = refl
absent p n id (f ∷ fs) h =
    let k = absent p (suc n) id fs in
    elim (Bool-cases (p (record { field_id = f.id; sort_order = n }))) [
      | inl b ↦ rw b (ground (arith, k))
      | inr b ↦ rw b (ground (arith, k))
    ]

pub distinct_items :
    (p : ReorderItem → Bool) (n : ℕ) (fs : List FieldDef)
    → distinct (ids fs) ≡ true
    → distinct (map (λ i. i.field_id) (filter p (numbered n fs))) ≡ true
unfolding numbered
distinct_items p n [] h = refl
distinct_items p n (f ∷ fs) h =
    let k = distinct_items p (suc n) fs in
    let l = absent p (suc n) f.id fs in
    elim (Bool-cases (p (record { field_id = f.id; sort_order = n }))) [
      | inl b ↦ rw b (ground (arith, k, l))
      | inr b ↦ rw b (ground (arith, k))
    ]

not_updated :
    (items : List ReorderItem) (f : FieldDef)
    → includes (map (λ i. i.field_id) items) f.id ≡ false
    → updated items f ≡ f
unfolding updated
not_updated [] f h = refl
not_updated (i ∷ items) f h = ground (arith, not_updated items f)

skip_item :
    (i : ReorderItem) (items : List ReorderItem) (fs : List FieldDef)
    → includes (ids fs) i.field_id ≡ false
    → map (updated (i ∷ items)) fs ≡ map (updated items) fs
unfolding updated
skip_item i items [] h = refl
skip_item i items (f ∷ fs) h =
    let a : (i.field_id == f.id) ≡ false = ground arith in
    let b : includes (ids fs) i.field_id ≡ false = ground arith in
    rw (a, skip_item i items fs b) refl

IsFound : List FieldDef → FieldDef → Type 0
IsFound all f = find_field f.id all ≡ some f

module _ (all : List FieldDef) (x : FieldDef) (n : ℕ) (g : List FieldDef)
    (found : IsFound all x) where
  sent_tail :
      (x.sort_order == n) ≡ true
      → filter (is_changed all) (numbered n (x ∷ g)) ≡ filter (is_changed all) (numbered (suc n) g)
  unfolding numbered IsFound
  sent_tail b = rw (found, b) refl

  sent_head :
      (x.sort_order == n) ≡ false
      → filter (is_changed all) (numbered n (x ∷ g))
        ≡ record { field_id = x.id; sort_order = n } ∷ filter (is_changed all) (numbered (suc n) g)
  unfolding numbered IsFound
  sent_head b = rw (found, b) refl

update_numbered :
    (all : List FieldDef) (n : ℕ) (g : List FieldDef)
    → distinct (ids g) ≡ true
    → All (IsFound all) g
    → map (updated (filter (is_changed all) (numbered n g))) g ≡ renumbered n g
unfolding numbered updated renumbered IsFound
update_numbered all n [] d h = refl
update_numbered all n (x ∷ g) d (found, h) =
    let alone : includes (ids g) x.id ≡ false = ground arith in
    let rest = update_numbered all (suc n) g (ground arith) h in
    let same : (x.id == x.id) ≡ true = ground arith in
    let item : ReorderItem = record { field_id = x.id; sort_order = n } in
    let items = filter (is_changed all) (numbered (suc n) g) in
    let then_sent = λ (its : List ReorderItem). map (updated its) (x ∷ g) in
    elim (Bool-cases (x.sort_order == n)) [
      | inl b ↦
          ap then_sent (sent_tail all x n g found b)
          ∙ rw (not_updated items x (absent (is_changed all) (suc n) x.id g alone), rest)
              (ap (λ k. record x { sort_order = k } ∷ renumbered (suc n) g) (ground arith))
      | inr b ↦
          ap then_sent (sent_head all x n g found b)
          ∙ rw (same, skip_item item items g alone, rest) refl
    ]

still_there :
    (x : FieldDef) (all fs : List FieldDef)
    → includes (ids fs) x.id ≡ false
    → All (IsFound all) fs
    → All (IsFound (x ∷ all)) fs
unfolding find_field IsFound
still_there x all [] h k = tt
still_there x all (f ∷ fs) h (p, k) =
    let a : (x.id == f.id) ≡ false = ground arith in (rw a p, still_there x all fs (ground arith) k)

-- Each of the fields is found under its id.
find_self : (g : List FieldDef) → distinct (ids g) ≡ true → All (IsFound g) g
unfolding find_field IsFound
find_self [] d = tt
find_self (x ∷ g) d =
    let same : (x.id == x.id) ≡ true = ground arith in
    (rw same refl, still_there x g g (ground arith) (find_self g (ground arith)))

pub distinct-ids :
    (i : ℕ) (fs : List FieldDef) → distinct (ids fs) ≡ true → distinct (ids (moved i fs)) ≡ true
distinct-ids i fs d = ap distinct (map-moved (λ x. x.id) i fs) ∙ distinct-moved i (ids fs) ∙ d

-- The list that is read after the updates of the fields in their new order.
pub reread :
    (i : ℕ) (fs : List FieldDef)
    → distinct (ids fs) ≡ true
    → sort before (map (updated (filter (is_changed fs) (numbered 0 (moved i fs)))) fs)
      ≡ renumbered 0 (moved i fs)
reread i fs d =
    let f = updated (filter (is_changed fs) (numbered 0 (moved i fs))) in
    let numbers : map f (moved i fs) ≡ renumbered 0 (moved i fs) =
      update_numbered fs 0 (moved i fs) (distinct-ids i fs d)
        (All-moved (IsFound fs) i fs (find_self fs d)) in
    let back : map f fs ≡ moved i (renumbered 0 (moved i fs)) =
      sym (moved_twice i (map f fs)) ∙ ap (moved i) (sym (map-moved f i fs) ∙ numbers) in
    ap (sort before) back ∙ sort-moved i 0 (moved i fs)

-- ===== src/Review/Grouping/Whole.antt =====
-- Each group has all submissions of its key, and the id and the name of the first of them.
use mathlib.Core.List.{append_assoc, append-nil}
use choschmous_v.Base.Sorting
use choschmous_v.Base.{
  ◌≡◌, refl, sym, ap, ◌∙◌, subst, inl, inr, true, false, Option, none, List, [], ◌∷◌, ◌++◌,
  Bool-cases, ◌==◌, nat_eq, or_else, All, filter, Text, text_beq_iff, text_eq,
}
use choschmous_v.Base.Assoc.{get, put, get-put}
use choschmous_v.Review.Grouping.{
  Bucket, Reading, Group, tally, key, new_group, add, insert, collect, before, values, group_rows,
}
use choschmous_v.Review.Grouping.Laws.{add-submissions, values-All}

module _ {R : Type 0} (reading : Reading R) where
  abbrev pub of_key : Text → List R → List R
  of_key k rows = filter (λ r. key reading r == k) rows

  abbrev pub IsWhole : List R → Group R → Text → Type 0
  IsWhole rows g k = g.submissions ≡ of_key k rows

  -- The group is that of its first submission.
  abbrev pub IsHeaded : Group R → Type 0
  IsHeaded g =
      (r : R) × (rest : List R) × (g.submissions ≡ r ∷ rest)
      × (g.id ≡ reading.id_of r)
      × (g.name ≡ reading.name_of r)

  abbrev Entries : Type 0
  Entries = List (Text × Group R)

  abbrev IsWholeEntry : List R → Text × Group R → Type 0
  IsWholeEntry rows e = IsWhole rows e.1 e.0 × IsHeaded e.1

  IsKeyed : Entries → Type 0
  IsKeyed [] = Unit
  IsKeyed ((k, g) ∷ m) = (get k m ≡ none) × IsKeyed m

  same_key : (k : Text) → (k == k) ≡ true
  same_key k = (text_beq_iff k k).1 refl

  of_key-hit :
      (k : Text) (rows : List R) (r : R)
      → (key reading r == k) ≡ true
      → of_key k (rows ++ r ∷ []) ≡ of_key k rows ++ r ∷ []
  of_key-hit k [] r h = rw h refl
  of_key-hit k (x ∷ rows) r h = elim (Bool-cases (key reading x == k)) [
    | inl p ↦ rw p (ap (◌∷◌ x) (of_key-hit k rows r h))
    | inr p ↦ rw p (of_key-hit k rows r h)
  ]

  of_key-miss :
      (k : Text) (rows : List R) (r : R)
      → (key reading r == k) ≡ false
      → of_key k (rows ++ r ∷ []) ≡ of_key k rows
  of_key-miss k [] r h = rw h refl
  of_key-miss k (x ∷ rows) r h = elim (Bool-cases (key reading x == k)) [
    | inl p ↦ rw p (ap (◌∷◌ x) (of_key-miss k rows r h))
    | inr p ↦ rw p (of_key-miss k rows r h)
  ]

  apart : (j k : Text) → (j == k) ≡ false → (k == j) ≡ false
  apart j k h = elim (Bool-cases (k == j)) [
    | inl p ↦ absurd (cc (h, (text_beq_iff j k).1 (sym ((text_beq_iff k j).0 p))))
    | inr p ↦ p
  ]

  -- Entries of other keys are not touched.
  others :
      (r : R) (rows : List R) (m : Entries)
      → get (key reading r) m ≡ none
      → All (IsWholeEntry rows) m
      → All (IsWholeEntry (rows ++ r ∷ [])) m
  unfolding get
  others r rows [] n h = tt
  others r rows ((j, g) ∷ m) n ((w, d), h) = elim (Bool-cases (j == key reading r)) [
    | inl p ↦ absurd (cc (rw p at n))
    | inr p ↦ (
      (w ∙ sym (of_key-miss j rows r (apart j (key reading r) p)), d),
      others r rows m (rw p at n) h,
    )
  ]

  tally-owner :
      (b : Bucket) (g : Group R)
      → ((tally reading b g).id ≡ g.id) × ((tally reading b g).name ≡ g.name)
  tally-owner Bucket.pending g = (refl, refl)
  tally-owner Bucket.approved g = (refl, refl)
  tally-owner Bucket.rejected g = (refl, refl)
  tally-owner Bucket.other g = (refl, refl)

  add-owner :
      (r : R) (g : Group R) → ((add reading r g).id ≡ g.id) × ((add reading r g).name ≡ g.name)
  unfolding add
  add-owner r g = tally-owner (reading.bucket_of r) _

  add-IsHeaded : (r : R) (g : Group R) → IsHeaded g → IsHeaded (add reading r g)
  add-IsHeaded r g (a, rest, q, i, n) =
      let (x, y) = add-owner r g in
      (a, rest ++ r ∷ [], add-submissions reading r g ∙ ap (λ xs. xs ++ r ∷ []) q, x ∙ i, y ∙ n)

  new_group-IsHeaded : (r : R) → IsHeaded (add reading r (new_group reading r))
  new_group-IsHeaded r =
      let (x, y) = add-owner r (new_group reading r) in
      (r, [], add-submissions reading r (new_group reading r), x, y)

  first_of_key :
      (r : R) (rows : List R)
      → of_key (key reading r) rows ≡ []
      → IsWholeEntry (rows ++ r ∷ []) (key reading r, add reading r (new_group reading r))
  first_of_key r rows h = (
    add-submissions reading r (new_group reading r)
        ∙ sym (
            of_key-hit (key reading r) rows r (same_key (key reading r))
            ∙ ap (λ xs. xs ++ r ∷ []) h),
    new_group-IsHeaded r,
  )

  put-IsWhole :
      (r : R) (rows : List R) (m : Entries) (o : Option (Group R))
      → get (key reading r) m ≡ o
      → (o ≡ none → of_key (key reading r) rows ≡ [])
      → IsKeyed m
      → All (IsWholeEntry rows) m
      → All
          (IsWholeEntry (rows ++ r ∷ []))
          (put (key reading r) (add reading r (or_else o (new_group reading r))) m)
  unfolding put get IsKeyed
  put-IsWhole r rows [] o f n k h = (
    subst
        (λ q.
          IsWholeEntry (rows ++ r ∷ [])
            (key reading r, add reading r (or_else q (new_group reading r))))
        f (first_of_key r rows (n (sym f))),
    tt,
  )
  put-IsWhole r rows ((j, g) ∷ m) o f n (new, k) ((w, d), h) =
      elim (Bool-cases (j == key reading r)) [
        | inl p ↦
            let e : j ≡ key reading r = (text_beq_iff j (key reading r)).0 p in
            rw p (
              subst
                  (λ q.
                    IsWholeEntry (rows ++ r ∷ [])
                      (j, add reading r (or_else q (new_group reading r))))
                  (rw p at f)
                  (
                    add-submissions reading r g
                        ∙ ap (λ xs. xs ++ r ∷ []) w
                        ∙ sym (of_key-hit j rows r ((text_beq_iff (key reading r) j).1 (sym e))),
                    add-IsHeaded r g d,
                  ),
              others r rows m (subst (λ x. get x m ≡ none) e new) h,
            )
        | inr p ↦ rw p (
          (w ∙ sym (of_key-miss j rows r (apart j (key reading r) p)), d),
          put-IsWhole r rows m o (rw p at f) n k h,
        )
      ]

  put-IsKeyed : (k : Text) (g : Group R) (m : Entries) → IsKeyed m → IsKeyed (put k g m)
  unfolding put IsKeyed get
  put-IsKeyed k g [] h = (refl, tt)
  put-IsKeyed k g ((j, d) ∷ m) (new, h) = elim (Bool-cases (j == k)) [
    | inl p ↦ rw p (new, h)
    | inr p ↦ rw p (get-put k j g m ∙ rw (apart j k p, new) refl, put-IsKeyed k g m h)
  ]

  -- A key without an entry has had no submission.
  IsCovered : List R → Entries → Type 0
  IsCovered rows m = (k : Text) → get k m ≡ none → of_key k rows ≡ []

  insert-IsCovered :
      (r : R) (rows : List R) (m : Entries)
      → IsCovered rows m
      → IsCovered (rows ++ r ∷ []) (insert reading m r)
  unfolding IsCovered insert
  insert-IsCovered r rows m h k q = elim (Bool-cases (key reading r == k)) [
    | inl p ↦ absurd (cc (rw p at (sym (get-put (key reading r) k _ m) ∙ q)))
    | inr p ↦
        let n = rw p at (sym (get-put (key reading r) k _ m) ∙ q) in of_key-miss k rows r p ∙ h k n
  ]

  collect-IsWhole :
      (m : Entries) (rows rs : List R)
      → IsKeyed m
      → IsCovered rows m
      → All (IsWholeEntry rows) m
      → All (IsWholeEntry (rows ++ rs)) (collect reading m rs)
  unfolding collect
  collect-IsWhole m rows [] k c h = rw (append-nil rows) h
  collect-IsWhole m rows (r ∷ rs) k c h =
      subst (λ xs. All (IsWholeEntry xs) (collect reading (insert reading m r) rs))
        (append_assoc rows (r ∷ []) rs)
        (collect-IsWhole (insert reading m r) (rows ++ r ∷ []) rs
          (unfold insert in put-IsKeyed (key reading r) _ m k) (insert-IsCovered r rows m c)
          (unfold insert IsCovered in
            put-IsWhole r rows m (get (key reading r) m) refl (c (key reading r)) k h))

  with_key :
      (rows : List R) (m : Entries)
      → All (IsWholeEntry rows) m
      → All (λ (e : Text × Group R). ((k : Text) × IsWhole rows e.1 k) × IsHeaded e.1) m
  with_key rows [] h = tt
  with_key rows ((k, g) ∷ m) ((w, d), h) = (((k, w), d), with_key rows m h)

  pub group_rows-IsWhole :
      (rows : List R)
      → All (λ g. ((k : Text) × IsWhole rows g k) × IsHeaded g) (group_rows reading rows)
  unfolding group_rows
  group_rows-IsWhole rows =
      let m = collect reading [] rows in
      Sorting.sort-All (before reading) (λ g. ((k : Text) × IsWhole rows g k) × IsHeaded g)
        (values reading m)
        (values-All reading (λ g. ((k : Text) × IsWhole rows g k) × IsHeaded g) m
          (with_key rows m (
            collect-IsWhole [] [] rows (unfold IsKeyed in tt) (unfold IsCovered in λ k q. refl)
              tt)))

-- ===== src/Review/Grouping/Laws.antt =====
-- Grouping loses no submission, and every counter is right.
use choschmous_v.Base.{
  ℕ, ◌+◌, ◌≡◌, refl, sym, ◌∙◌, subst, inl, inr, Option, List, [], ◌∷◌, ◌++◌, arith, if◌then◌else◌,
  Bool-cases, ◌==◌, nat_eq, or_else, All, length, length-append, All-append, Text, text_beq_iff,
  text_eq,
}
use mathlib.Core.List.{Perm, perm_middle, append_assoc, append-nil}
use mathlib.Core.List.Perm
use choschmous_v.Base.Sorting
use choschmous_v.Base.Sorting.{gather}
use choschmous_v.Base.Assoc.{get, put}
use choschmous_v.Review.Grouping.{
  Bucket, Reading, Group, key, new_group, add, insert, collect, before, values, group_rows,
}

abbrev bucket_index : Bucket → ℕ
bucket_index Bucket.pending = 0
bucket_index Bucket.approved = 1
bucket_index Bucket.rejected = 2
bucket_index Bucket.other = 3

module _ {R : Type 0} (reading : Reading R) where
  -- How many of the submissions belong to a counter.
  abbrev pub count_in : Bucket → List R → ℕ
  count_in b [] = 0
  count_in b (r ∷ rs) =
      (if bucket_index (reading.bucket_of r) == bucket_index b then 1 else 0) + count_in b rs

  count_in-append :
      (b : Bucket) (xs ys : List R) → count_in b (xs ++ ys) ≡ count_in b xs + count_in b ys
  count_in-append b [] ys = omega arith
  count_in-append b (x ∷ xs) ys = omega (arith, count_in-append b xs ys)

  -- Every counter of the group is the number of its submissions that it counts.
  pub record IsTallied (g : Group R) : Type 0 where
    pub total : g.total ≡ length g.submissions
    pub pending : g.pending ≡ count_in Bucket.pending g.submissions
    pub approved : g.approved ≡ count_in Bucket.approved g.submissions
    pub rejected : g.rejected ≡ count_in Bucket.rejected g.submissions
    pub other : g.other ≡ count_in Bucket.other g.submissions
    pub sum : g.pending + g.approved + g.rejected + g.other ≡ g.total

  pub add-submissions :
      (r : R) (g : Group R) → (add reading r g).submissions ≡ g.submissions ++ r ∷ []
  unfolding add
  add-submissions r g = ground arith

  add-IsTallied : (r : R) (g : Group R) → IsTallied g → IsTallied (add reading r g)
  unfolding add
  add-IsTallied r g h = ground (
    arith,
    length-append g.submissions (r ∷ []),
    count_in-append Bucket.pending g.submissions (r ∷ []),
    count_in-append Bucket.approved g.submissions (r ∷ []),
    count_in-append Bucket.rejected g.submissions (r ∷ []),
    count_in-append Bucket.other g.submissions (r ∷ []),
  )

  -- An entry of the map: its group is tallied and holds submissions of its key only.
  abbrev pub IsEntry : Text × Group R → Type 0
  IsEntry e = IsTallied e.1 × All (λ r. key reading r ≡ e.0) e.1.submissions

  new_group-IsTallied : (r : R) → IsTallied (new_group reading r)
  new_group-IsTallied r = record {
    total = refl;
    pending = refl;
    approved = refl;
    rejected = refl;
    other = refl;
    sum = refl;
  }

  add-IsEntry :
      (k : Text) (r : R) (g : Group R)
      → key reading r ≡ k
      → IsEntry (k, g)
      → IsEntry (k, add reading r g)
  add-IsEntry k r g e (t, h) = (
    add-IsTallied r g t,
    rw add-submissions (All-append (λ s. key reading s ≡ k) g.submissions (r ∷ []) h (e, tt)),
  )

  -- All its submissions have one key.
  abbrev pub OfOneKey : Group R → Type 0
  OfOneKey g = (k : Text) × All (λ r. key reading r ≡ k) g.submissions

  abbrev subs : List (Text × Group R) → List R
  subs m = gather (λ g. g.submissions) (values reading m)

  -- One round at any key: what is found there, or a new group, gets the submission.
  put-IsEntry :
      (k : Text) (r : R) (m : List (Text × Group R)) (o : Option (Group R))
      → get k m ≡ o
      → key reading r ≡ k
      → All IsEntry m
      → All IsEntry (put k (add reading r (or_else o (new_group reading r))) m)
  unfolding put get
  put-IsEntry k r [] o f e h =
      (rw (← f) (add-IsEntry k r (new_group reading r) e (new_group-IsTallied r, tt)), tt)
  put-IsEntry k r ((j, g) ∷ m) o f e (here, h) = elim (Bool-cases (j == k)) [
    | inl p ↦ rw p (
      subst (λ q. IsEntry (j, add reading r (or_else q (new_group reading r)))) (rw p at f)
          (add-IsEntry j r g (e ∙ sym ((text_beq_iff j k).0 p)) here),
      h,
    )
    | inr p ↦ rw p (here, put-IsEntry k r m o (rw p at f) e h)
  ]

  put-perm :
      (k : Text) (r : R) (m : List (Text × Group R)) (o : Option (Group R))
      → get k m ≡ o
      → Perm (subs (put k (add reading r (or_else o (new_group reading r))) m)) (r ∷ subs m)
  unfolding put get
  put-perm k r [] o f =
      subst (λ q. Perm (subs ((k, add reading r (or_else q (new_group reading r))) ∷ [])) (r ∷ []))
        f
        (subst (λ xs. Perm (xs ++ []) (r ∷ [])) (sym (add-submissions r (new_group reading r)))
          (Perm.refl (r ∷ [])))
  put-perm k r ((j, g) ∷ m) o f = elim (Bool-cases (j == k)) [
    | inl p ↦ rw p (
        subst
          (λ q.
            Perm (subs ((j, add reading r (or_else q (new_group reading r))) ∷ m))
              (r ∷ subs ((j, g) ∷ m)))
          (rw p at f)
          (subst (λ xs. Perm (xs ++ subs m) (r ∷ (g.submissions ++ subs m)))
            (sym (add-submissions r g))
            (rw (append_assoc g.submissions (r ∷ []) (subs m))
              (perm_middle g.submissions (subs m)))))
    | inr p ↦ rw p (
        Perm.trans (Perm.append_left g.submissions (put-perm k r m o (rw p at f)))
          (perm_middle g.submissions (subs m)))
  ]

  collect-IsEntry :
      (m : List (Text × Group R)) (rs : List R) → All IsEntry m → All IsEntry (collect reading m rs)
  unfolding collect
  collect-IsEntry m [] h = h
  collect-IsEntry m (r ∷ rs) h =
      collect-IsEntry (insert reading m r) rs
        (put-IsEntry (key reading r) r m (get (key reading r) m) refl refl h)

  collect-perm :
      (m : List (Text × Group R)) (rs : List R) → Perm (subs (collect reading m rs)) (rs ++ subs m)
  unfolding collect
  collect-perm m [] = Perm.refl (subs m)
  collect-perm m (r ∷ rs) = Perm.trans (collect-perm (insert reading m r) rs) (
      Perm.trans (Perm.append_left rs (put-perm (key reading r) r m (get (key reading r) m) refl))
        (perm_middle rs (subs m)))

  pub values-All :
      (P : Group R → Type 0) (m : List (Text × Group R))
      → All (λ e. P e.1) m
      → All P (values reading m)
  values-All P [] h = tt
  values-All P (e ∷ m) (p, h) = (p, values-All P m h)

  weaken : (m : List (Text × Group R)) → All IsEntry m → All (λ e. IsTallied e.1 × OfOneKey e.1) m
  weaken [] h = tt
  weaken ((k, g) ∷ m) ((t, ks), h) = ((t, (k, ks)), weaken m h)

  -- The queue shows every submission once, in groups of one key each whose counters are right, and
  -- the groups by descending number of pending submissions, ties by descending total.
  pub group_rows_correct :
      (rows : List R)
      → Perm (gather (λ g. g.submissions) (group_rows reading rows)) rows
        × All (λ g. IsTallied g × OfOneKey g) (group_rows reading rows)
        × Sorting.IsSorted (before reading) (group_rows reading rows)
  unfolding group_rows
  group_rows_correct rows =
      let m = collect reading [] rows in
      (
        Perm.trans (Sorting.gather-sort (before reading) (λ g. g.submissions) (values reading m))
            (subst (Perm (subs m)) (append-nil rows) (collect-perm [] rows)),
        Sorting.sort-All (before reading) (λ g. IsTallied g × OfOneKey g) (values reading m)
            (values-All (λ g. IsTallied g × OfOneKey g) m (weaken m (collect-IsEntry [] rows tt))),
        Sorting.sort-IsSorted (before reading) (λ a b h. ground arith) (λ a b c h k. ground arith)
            (values reading m),
      )

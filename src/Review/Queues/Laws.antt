-- ===== src/Review/Queues/Laws.antt =====
-- What a reviewer sees of each queue.
use choschmous_v.Base.{◌+◌, ◌≡◌, refl, sym, ◌∙◌, List, [], ◌∷◌, arith, nat_eq, All, Text, text_eq}
use mathlib.Core.List.{Perm}
use choschmous_v.Base.Sorting
use choschmous_v.Base.Sorting.{gather}
use choschmous_v.Review.Grouping.{Bucket, Reading, Group, group_rows, before, key}
use choschmous_v.Review.Grouping.Keys.{SameOwner, key-SameOwner}
use choschmous_v.Review.Grouping.Whole.{IsWhole, IsHeaded, group_rows-IsWhole}
use choschmous_v.Review.Grouping.Laws.{IsTallied, OfOneKey, count_in, group_rows_correct}
use choschmous_v.Review.Queues.{
  CategorySubmission, SportSubmission, sport_bucket, category_reading, sport_reading,
  group_category_submissions_by_sport, group_submissions_by_org,
}

module _ {R : Type 0} (reading : Reading R) where
  -- The rows all belong to one owner.
  abbrev pub OfOneOwner : List R → Type 0
  OfOneOwner rows = All (λ a. All (λ b. SameOwner reading a b) rows) rows

  with_key :
      (k : Text) (a : R) (rows : List R)
      → key reading a ≡ k
      → All (λ r. key reading r ≡ k) rows
      → All (λ b. SameOwner reading a b) rows
  with_key k a [] e h = tt
  with_key k a (b ∷ rows) e (f, h) = (key-SameOwner reading a b (e ∙ sym f), with_key k a rows e h)

  of_key :
      (k : Text) (xs rows : List R)
      → All (λ r. key reading r ≡ k) xs
      → All (λ r. key reading r ≡ k) rows
      → All (λ a. All (λ b. SameOwner reading a b) rows) xs
  of_key k [] rows h g = tt
  of_key k (a ∷ xs) rows (e, h) g = (with_key k a rows e g, of_key k xs rows h g)

  -- The groups of a queue: each of the rows once; in each group rows of one owner, in fact all rows of
  -- its key in their order, with the id and the name of the first of them, and the right counters; the
  -- groups by pending submissions, then by total, descending.
  pub record IsQueueOf (rows : List R) (groups : List (Group R)) : Type 0 where
    pub complete : Perm (gather (λ g. g.submissions) groups) rows
    pub tallied : All (IsTallied reading) groups
    pub owned : All (λ g. OfOneOwner g.submissions) groups
    pub whole : All (λ g. ((k : Text) × IsWhole reading rows g k) × IsHeaded reading g) groups
    pub sorted : Sorting.IsSorted (before reading) groups

  firsts :
      (gs : List (Group R))
      → All (λ g. IsTallied reading g × OfOneKey reading g) gs
      → All (IsTallied reading) gs
  firsts [] h = tt
  firsts (g ∷ gs) ((t, _), h) = (t, firsts gs h)

  owners :
      (gs : List (Group R))
      → All (λ g. IsTallied reading g × OfOneKey reading g) gs
      → All (λ g. OfOneOwner g.submissions) gs
  owners [] h = tt
  owners (g ∷ gs) ((_, (k, ks)), h) = (of_key k g.submissions g.submissions ks ks, owners gs h)

  group_rows-IsQueueOf : (rows : List R) → IsQueueOf rows (group_rows reading rows)
  group_rows-IsQueueOf rows =
      let (complete, entries, sorted) = group_rows_correct reading rows in
      record {
        complete = complete;
        tallied = firsts (group_rows reading rows) entries;
        owned = owners (group_rows reading rows) entries;
        whole = group_rows-IsWhole reading rows;
        sorted = sorted;
      }

-- The by-category queue shows every submission once, in groups of one sport each (the
-- same id, or none and the same name), with right counters, and most pending first.
pub group_category_submissions_by_sport-IsQueueOf :
    (rows : List CategorySubmission)
    → IsQueueOf category_reading rows (group_category_submissions_by_sport rows)
unfolding group_category_submissions_by_sport
group_category_submissions_by_sport-IsQueueOf rows = group_rows-IsQueueOf category_reading rows

none_other : (xs : List SportSubmission) → count_in sport_reading Bucket.other xs ≡ 0
unfolding sport_bucket
none_other [] = refl
none_other (x ∷ xs) = ground (arith, none_other xs)

-- The by-sport queue shows every submission once, in groups of one organization each (the same id, or
-- none and the same name), most pending first, and its three counters leave none out.
pub group_submissions_by_org-IsQueueOf :
    (rows : List SportSubmission)
    → IsQueueOf sport_reading rows (group_submissions_by_org rows)
      × All (λ g. g.pending + g.approved + g.rejected ≡ g.total) (group_submissions_by_org rows)
unfolding group_submissions_by_org
group_submissions_by_org-IsQueueOf rows =
    let queue = group_rows-IsQueueOf sport_reading rows in
    (queue, three_counters (group_rows sport_reading rows) queue.tallied)
  where
    three_counters :
        (gs : List (Group SportSubmission))
        → All (IsTallied sport_reading) gs
        → All (λ g. g.pending + g.approved + g.rejected ≡ g.total) gs
    three_counters [] h = tt
    three_counters (g ∷ gs) (t, h) =
        (omega (arith, none_other g.submissions, t.sum, t.other), three_counters gs h)

-- ===== src/Review/Grouping.antt =====
-- The loop that the three queues share, over what it reads of a submission.
pub mod Laws
pub mod Keys
pub mod Whole
use choschmous_v.Base.{
  ℕ, ◌+◌, Bool, ◌&&◌, ◌||◌, Option, none, some, List, [], ◌∷◌, ◌++◌, map, ltb, if◌then◌else◌, ◌==◌,
  nat_eq, or_else, includes, Text, codes, text_eq, is_empty, text_lt,
}
use choschmous_v.Base.Sorting
use choschmous_v.Base.Assoc.{get, put}
use choschmous_v.Base.Decimal.{show}

-- The counter that a submission's status belongs to.
pub data Bucket : Type 0 where
  pending approved rejected other : Bucket

-- What the loop reads of a submission.
pub record Reading (R : Type 0) : Type 0 where
  pub id_of : R → Option ℕ
  pub name_of : R → Option Text
  pub bucket_of : R → Bucket
  pub event_of : R → Option Text
  pub created_of : R → Text

pub record Group (R : Type 0) : Type 0 where
  pub id : Option ℕ
  pub name : Option Text
  pub submissions : List R
  pub total : ℕ
  pub pending : ℕ
  pub approved : ℕ
  pub rejected : ℕ
  pub other : ℕ
  pub event_names : List Text
  pub latest_submitted_at : Text

abbrev pub name_prefix : Text
name_prefix = codes "name:"

module _ {R : Type 0} (reading : Reading R) where
  -- `String(id ?? `name:${name ?? ''}`)`
  abbrev pub key : R → Text
  key r = elim (reading.id_of r) [
    | some n ↦ show n
    | none ↦ name_prefix ++ or_else (reading.name_of r) []
  ]

  abbrev pub new_group : R → Group R
  new_group r = record {
    id = reading.id_of r;
    name = reading.name_of r;
    submissions = [];
    total = 0;
    pending = 0;
    approved = 0;
    rejected = 0;
    other = 0;
    event_names = [];
    latest_submitted_at = reading.created_of r;
  }

  abbrev pub tally : Bucket → Group R → Group R
  tally Bucket.pending g = record g { pending = g.pending + 1 }
  tally Bucket.approved g = record g { approved = g.approved + 1 }
  tally Bucket.rejected g = record g { rejected = g.rejected + 1 }
  tally Bucket.other g = record g { other = g.other + 1 }

  -- An event's name is listed once, and not if it is empty.
  abbrev pub note_event : Option Text → List Text → List Text
  note_event none names = names
  note_event (some e) names = if is_empty e || includes names e then names else names ++ e ∷ []

  abbrev pub later : Text → Text → Text
  later a b = if text_lt b a then a else b

  unfoldable pub add : R → Group R → Group R
  add r g =
      let counted =
        tally (reading.bucket_of r)
          (record g { submissions = g.submissions ++ r ∷ []; total = g.total + 1 }) in
      record counted {
        event_names = note_event (reading.event_of r) g.event_names;
        latest_submitted_at = later (reading.created_of r) g.latest_submitted_at;
      }

  -- One round: the group is looked up, created if it is missing, and changed in place.
  unfoldable pub insert : List (Text × Group R) → R → List (Text × Group R)
  unfolding add
  insert m r = put (key r) (add r (or_else (get (key r) m) (new_group r))) m

  unfoldable pub collect : List (Text × Group R) → List R → List (Text × Group R)
  unfolding insert
  collect m [] = m
  collect m (r ∷ rs) = collect (insert m r) rs

  -- `b.pending - a.pending || b.total - a.total` is negative.
  abbrev pub before : Group R → Group R → Bool
  before a b = ltb b.pending a.pending || (b.pending == a.pending && ltb b.total a.total)

  abbrev pub values : List (Text × Group R) → List (Group R)
  values m = map (λ e. e.1) m

  unfoldable pub group_rows : List R → List (Group R)
  unfolding collect
  group_rows rows = Sorting.sort before (values (collect [] rows))

-- ===== src/Review/Queues.antt =====
-- The three queues: their submissions, statuses and grouping functions.
pub mod Laws
use choschmous_v.Base.{ℕ, Option, none, some, List, Text}
use choschmous_v.Review.Grouping.{Bucket, Reading, Group, group_rows}

-- `ParticipationStatus`, `CategorySubmissionStatus`
pub data Status : Type 0 where
  draft submitted approved rejected flagged revision_requested : Status

-- `SportSubmissionStatus`
pub data SportStatus : Type 0 where
  submitted approved rejected : SportStatus

-- `ParticipationPerSport`
pub record Participation : Type 0 where
  pub id : ℕ
  pub enroll_id : ℕ
  pub sport_id : ℕ
  pub event_id : ℕ
  pub org_id : Option ℕ
  pub category_id : Option ℕ
  pub created_at : Text
  pub status : Option Status
  pub review_note : Option Text
  pub reviewed_at : Option Text
  pub athlete_male_count : Option ℕ
  pub athlete_female_count : Option ℕ
  pub leader_male_count : Option ℕ
  pub leader_female_count : Option ℕ
  pub org_name : Option Text
  pub event_name : Option Text
  pub sport_name : Option Text
  pub category_name : Option Text
  pub participant_name : Option Text

pub record CategorySubmission : Type 0 where
  pub id : ℕ
  pub events_id : Option ℕ
  pub sports_id : Option ℕ
  pub event_name : Option Text
  pub sport_name : Option Text
  pub category_count : ℕ
  pub created_at : Text
  pub status : Option Status
  pub review_note : Option Text
  pub reviewed_at : Option Text

pub record SportSubmission : Type 0 where
  pub id : ℕ
  pub events_id : Option ℕ
  pub sports_id : Option ℕ
  pub organization_id : Option ℕ
  pub created_at : Text
  pub status : Option SportStatus
  pub review_note : Option Text
  pub reviewed_at : Option Text
  pub org_name : Option Text
  pub sport_name : Option Text
  pub event_name : Option Text

-- The chain of tests on a status; a missing one counts as `SUBMITTED`.
unfoldable pub bucket : Option Status → Bucket
bucket none = Bucket.pending
bucket (some Status.submitted) = Bucket.pending
bucket (some Status.approved) = Bucket.approved
bucket (some Status.rejected) = Bucket.rejected
bucket (some _) = Bucket.other

-- The sport queue counts whatever is neither approved nor rejected as pending.
unfoldable pub sport_bucket : Option SportStatus → Bucket
sport_bucket (some SportStatus.approved) = Bucket.approved
sport_bucket (some SportStatus.rejected) = Bucket.rejected
sport_bucket _ = Bucket.pending

abbrev pub participation_reading : Reading Participation
participation_reading = record {
  id_of = λ r. r.org_id;
  name_of = λ r. r.org_name;
  bucket_of = λ r. bucket r.status;
  event_of = λ r. r.event_name;
  created_of = λ r. r.created_at;
}

unfoldable pub group_participations_by_org : List Participation → List (Group Participation)
group_participations_by_org rows = group_rows participation_reading rows

abbrev pub category_reading : Reading CategorySubmission
category_reading = record {
  id_of = λ r. r.sports_id;
  name_of = λ r. r.sport_name;
  bucket_of = λ r. bucket r.status;
  event_of = λ r. r.event_name;
  created_of = λ r. r.created_at;
}

unfoldable pub group_category_submissions_by_sport :
    List CategorySubmission → List (Group CategorySubmission)
group_category_submissions_by_sport rows = group_rows category_reading rows

abbrev pub sport_reading : Reading SportSubmission
sport_reading = record {
  id_of = λ r. r.organization_id;
  name_of = λ r. r.org_name;
  bucket_of = λ r. sport_bucket r.status;
  event_of = λ r. r.event_name;
  created_of = λ r. r.created_at;
}

unfoldable pub group_submissions_by_org : List SportSubmission → List (Group SportSubmission)
group_submissions_by_org rows = group_rows sport_reading rows

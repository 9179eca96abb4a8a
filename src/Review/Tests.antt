-- ===== src/Review/Tests.antt =====
-- Three submissions of two organizations, on concrete inputs.
use choschmous_v.Base.{ℕ, Option, none, some, List, [], ◌∷◌, nat_eq, codes, text_eq}
use choschmous_v.Review.Queues.{
  Status, SportStatus, Participation, CategorySubmission, SportSubmission,
}

abbrev participation : ℕ → Option ℕ → Option Status → Participation
participation id org status = record {
  id = id;
  enroll_id = id;
  sport_id = 1;
  event_id = 1;
  org_id = org;
  category_id = none;
  created_at = codes "2025-01-01";
  status = status;
  review_note = none;
  reviewed_at = none;
  athlete_male_count = none;
  athlete_female_count = none;
  leader_male_count = none;
  leader_female_count = none;
  org_name = some (codes "Kampot");
  event_name = some (codes "Games");
  sport_name = none;
  category_name = none;
  participant_name = none;
}

abbrev participations : List Participation
participations =
    participation 1 (some 4) none
    ∷ participation 2 none (some Status.approved)
    ∷ participation 3 (some 4) (some Status.flagged)
    ∷ []

abbrev category_submission : ℕ → Option ℕ → Option Status → CategorySubmission
category_submission id sport status = record {
  id = id;
  events_id = some 1;
  sports_id = sport;
  event_name = some (codes "Games");
  sport_name = some (codes "Judo");
  category_count = 2;
  created_at = codes "2025-01-01";
  status = status;
  review_note = none;
  reviewed_at = none;
}

abbrev category_submissions : List CategorySubmission
category_submissions =
    category_submission 1 (some 4) none ∷ category_submission 2 none (some Status.rejected) ∷ []

abbrev sport_submission : ℕ → Option ℕ → Option SportStatus → SportSubmission
sport_submission id org status = record {
  id = id;
  events_id = some 1;
  sports_id = some 2;
  organization_id = org;
  created_at = codes "2025-01-01";
  status = status;
  review_note = none;
  reviewed_at = none;
  org_name = some (codes "Kampot");
  sport_name = none;
  event_name = none;
}

abbrev sport_submissions : List SportSubmission
sport_submissions =
    sport_submission 1 (some 4) none ∷ sport_submission 2 (some 4) (some SportStatus.approved) ∷ []

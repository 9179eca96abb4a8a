-- ===== src/Survey/ByNumber.antt =====
-- The rows of the survey by number: how the adapter gathers them with one request per sport, which are
-- answered in any order (bynumber/adapters/bynumberHttpAdapter.ts), and the table that edits their
-- counts (bynumber/components/ByNumberSportsTable.tsx). The cache in front of the requests is that of
-- Survey.Cache; `parseInt` is a parameter.
pub mod Found
pub mod Rows
pub mod Table
mod Tests
use choschmous_v.Base.Options.{◌>>=◌}
use choschmous_v.Base.Picking.{pick}
use choschmous_v.Base.{
  ℕ, zero, suc, ◌+◌, Bool, true, false, Option, none, some, List, [], ◌∷◌, ◌++◌, if◌then◌else◌,
  ◌==◌, nat_eq, or_else, Text, text_eq,
}
use choschmous_v.Survey.Schema.{SportEntry, SportsEvent}
use choschmous_v.Survey.Reads.{find_sport}

-- `sportEventOrgResponseSchema`: an organization that is linked to a sport.
pub record OrgLink : Type 0 where
  pub id : ℕ
  pub organization_id : ℕ

pub record SportRow : Type 0 where
  pub sport_id : ℕ
  pub sport_name_kh : Text
  pub athlete_male_count : ℕ
  pub athlete_female_count : ℕ
  pub leader_male_count : ℕ
  pub leader_female_count : ℕ
  pub sports_event_org_id : ℕ

-- The callbacks that wait, one for each sport of the event, and the rows so far.
pub record Checks : Type 0 where
  pub pending : List SportsEvent
  pub rows : List SportRow

-- `orgs.find(o => o.organization_id === organizationId)`
abbrev pub find_link : ℕ → List OrgLink → Option OrgLink
find_link org [] = none
find_link org (o ∷ os) =
    let rest = find_link org os in if o.organization_id == org then some o else rest

abbrev pub new_row : SportEntry → SportsEvent → OrgLink → SportRow
new_row sport es link = record {
  sport_id = sport.id;
  sport_name_kh = or_else es.sport_name [];
  athlete_male_count = 0;
  athlete_female_count = 0;
  leader_male_count = 0;
  leader_female_count = 0;
  sports_event_org_id = link.id;
}

-- The server's answer to the request for the organizations of a sport, for each sport of the event:
-- nothing if it is rejected, or does not fit the schema.
module _ (org : ℕ) (get_sport_orgs : SportsEvent → (sport_id : ℕ) → Option (List OrgLink)) where
  -- What the callback of a sport finds.
  abbrev pub check : List SportEntry → SportsEvent → Option SportRow
  check all es = find_sport es.sport_name all >>= λ sport. get_sport_orgs es sport.id >>= λ orgs.
      find_link org orgs >>= λ link. some (new_row sport es link)

  abbrev pub rows_of : List SportEntry → SportsEvent → List SportRow
  rows_of all es = elim (check all es) [ some r ↦ r ∷ [] | none ↦ [] ]

  -- One of the callbacks that wait ends, and pushes its row.
  unfoldable pub settle : List SportEntry → ℕ → Checks → Option Checks
  settle all i c =
      pick i c.pending >>= λ r. some (record { pending = r.1; rows = c.rows ++ rows_of all r.0 })

  -- `Promise.all`, for an order in which the callbacks end.
  unfoldable pub settle_all : List SportEntry → List ℕ → Checks → Checks
  settle_all all [] c = c
  settle_all all (i ∷ order) c = settle_all all order (or_else (settle all i c) c)

  abbrev pub fetch_rows : List SportEntry → List ℕ → List SportsEvent → Checks
  fetch_rows all order raw = settle_all all order (record { pending = raw; rows = [] })

  -- What is done behind the cache; either of the first two requests may be rejected.
  unfoldable pub fetch_org_event_sports :
      Option (List SportsEvent) → Option (List SportEntry) → List ℕ → List SportRow
  fetch_org_event_sports none all order = []
  fetch_org_event_sports (some raw) none order = []
  fetch_org_event_sports (some raw) (some all) order = (fetch_rows all order raw).rows

-- The counts of a row.
pub data CountField : Type 0 where
  athlete_male athlete_female leader_male leader_female : CountField

abbrev pub field_eq : CountField → CountField → Bool
field_eq athlete_male athlete_male = true
field_eq athlete_female athlete_female = true
field_eq leader_male leader_male = true
field_eq leader_female leader_female = true
field_eq _ _ = false

abbrev pub count_of : CountField → SportRow → ℕ
count_of athlete_male r = r.athlete_male_count
count_of athlete_female r = r.athlete_female_count
count_of leader_male r = r.leader_male_count
count_of leader_female r = r.leader_female_count

abbrev pub with_count : CountField → ℕ → SportRow → SportRow
with_count athlete_male n r = record r { athlete_male_count = n }
with_count athlete_female n r = record r { athlete_female_count = n }
with_count leader_male n r = record r { leader_male_count = n }
with_count leader_female n r = record r { leader_female_count = n }

-- A number that `parseInt` reads, or none.
pub data Parsed : Type 0 where
  nan : Parsed
  negative : ℕ → Parsed
  count : ℕ → Parsed

-- `Math.max(0, parseInt(text) || 0)`
abbrev pub count_in : Parsed → ℕ
count_in nan = 0
count_in (negative n) = 0
count_in (count n) = n

-- `updateSport`, for an index of the table.
unfoldable pub update_sport : ℕ → CountField → ℕ → List SportRow → List SportRow
update_sport i f n [] = []
update_sport zero f n (r ∷ rs) = with_count f n r ∷ rs
update_sport (suc i) f n (r ∷ rs) = r ∷ update_sport i f n rs

-- The total of a column, that of a row, and that of the table.
abbrev pub total : CountField → List SportRow → ℕ
total f [] = 0
total f (r ∷ rs) = count_of f r + total f rs

abbrev pub subtotal : SportRow → ℕ
subtotal r =
    r.athlete_male_count + r.athlete_female_count + r.leader_male_count + r.leader_female_count

abbrev pub grand_total : List SportRow → ℕ
grand_total rs =
    total athlete_male rs + total athlete_female rs + total leader_male rs + total leader_female rs

-- A text that is typed into a cell.
pub record Edit : Type 0 where
  pub index : ℕ
  pub field : CountField
  pub typed : Text

module _ (parse_int : Text → Parsed) where
  unfoldable pub run_edits : List Edit → List SportRow → List SportRow
  run_edits [] rs = rs
  run_edits (e ∷ es) rs =
      run_edits es (update_sport e.index e.field (count_in (parse_int e.typed)) rs)

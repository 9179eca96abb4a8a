-- ===== src/Survey/ByNumber/Tests.antt =====
-- Rows of three sports, the second of which the organization is not linked to, and edits of them.
use mathlib.Core.List.{Perm}
use choschmous_v.Base.{
  ℕ, zero, suc, ◌-◌, ◌≡◌, refl, Option, none, some, List, [], ◌∷◌, map, arith, length, Text, codes,
}
use choschmous_v.Survey.Schema.{SportEntry, SportsEvent}
use choschmous_v.Survey.ByNumber.{
  OrgLink, new_row, SportRow, athlete_male, leader_female, Parsed, nan, negative, count, Edit,
  fetch_rows, fetch_org_event_sports, settle, settle_all, run_edits, update_sport, grand_total,
  subtotal,
}
use choschmous_v.Survey.ByNumber.Found.{AreRowsOf}
use choschmous_v.Survey.ByNumber.Rows.{fetch_rows-AreRows}
use choschmous_v.Survey.ByNumber.Table.{sum, row_at, last_row, run_edits_lem}

abbrev sport_of : ℕ → Text → SportEntry
sport_of n name = record { id = n; name_kh = name }

abbrev all_sports : List SportEntry
all_sports =
    sport_of 1 (codes "boxing") ∷ sport_of 2 (codes "chess") ∷ sport_of 3 (codes "judo") ∷ []

abbrev event_sport : ℕ → Text → SportsEvent
event_sport n name = record { id = n; event_name = none; sport_name = some name; created_at = none }

abbrev of_event : List SportsEvent
of_event =
    event_sport 11 (codes "boxing")
    ∷ event_sport 12 (codes "chess")
    ∷ event_sport 13 (codes "judo")
    ∷ []

abbrev linked : SportsEvent → ℕ → Option (List OrgLink)
linked es zero = none
linked es (suc zero) = some (record { id = 21; organization_id = 7 } ∷ [])
linked es (suc (suc zero)) = some (record { id = 22; organization_id = 8 } ∷ [])
linked es (suc (suc (suc n))) = some (record { id = 23; organization_id = 7 } ∷ [])

abbrev last_first : List ℕ
last_first = 2 ∷ 0 ∷ 0 ∷ []

fetch_rows-AreRows_example :
    ((fetch_rows 7 linked all_sports last_first of_event).pending ≡ [])
    × (rows : List SportRow) × AreRowsOf 7 linked all_sports of_event rows
    × Perm (fetch_org_event_sports 7 linked (some of_event) (some all_sports) last_first) rows
fetch_rows-AreRows_example =
    fetch_rows-AreRows 7 linked all_sports of_event last_first
      (omega arith, (omega arith, (omega arith, tt)))

abbrev fetched : List SportRow
fetched = fetch_org_event_sports 7 linked (some of_event) (some all_sports) last_first

in_order_of_answers : map (λ (r : SportRow). r.sport_id) fetched ≡ 3 ∷ 1 ∷ []
unfolding fetch_org_event_sports settle_all settle
in_order_of_answers = refl

abbrev read_int : Text → Parsed
read_int [] = nan
read_int (c ∷ []) = count (c - 48)
read_int (c ∷ d ∷ t) = negative (d - 48)

abbrev edits : List Edit
edits =
    record { index = 0; field = athlete_male; typed = codes "5" }
    ∷ record { index = 1; field = leader_female; typed = codes "-2" }
    ∷ record { index = 0; field = athlete_male; typed = codes "4" }
    ∷ []

abbrev judo_row : SportRow
judo_row =
    new_row (sport_of 3 (codes "judo")) (event_sport 13 (codes "judo"))
      (record { id = 23; organization_id = 7 })

judo_first : row_at 0 fetched ≡ some judo_row
unfolding fetch_org_event_sports settle_all settle
judo_first = refl

run_edits_lem_example :
    let after = run_edits read_int edits fetched in
    (length after ≡ length fetched)
    × (row_at 0 after ≡ some (last_row read_int edits 0 judo_row))
    × (grand_total after ≡ sum (map subtotal after))
run_edits_lem_example = run_edits_lem read_int edits fetched 0 judo_row judo_first

four : grand_total (run_edits read_int edits fetched) ≡ 4
unfolding run_edits update_sport fetch_org_event_sports settle_all settle
four = refl

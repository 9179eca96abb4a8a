-- ===== src/Survey/Tests.antt =====
-- A server that knows one sport, on concrete inputs.
use choschmous_v.Base.{
  ℕ, ◌+◌, ◌≡◌, refl, true, Option, none, some, List, [], ◌∷◌, if◌then◌else◌, ◌==◌, nat_eq, Text,
  codes, text_eq,
}
use choschmous_v.Base.Assoc.{get}
use choschmous_v.Survey.Schema.{
  SportEntry, SportsEvent, SurveyPayload, ByNumberPayload, sports, Posted, accepted, rejected, Body,
  link, participation, Server,
}
use choschmous_v.Survey.Cache.{World, W, get_cached}
use choschmous_v.Survey.Cache.Refinement.{lookup, store, run, replay, run_refines}
use choschmous_v.Survey.Submit.{submit_survey}
use choschmous_v.Survey.Submit.Laws.{logged, answers, links, IsOutcome, submit_survey-IsOutcome}

abbrev judo : SportEntry
judo = record { id = 3; name_kh = codes "judo" }

-- The state is the time; the link of sport 9 is there already.
abbrev posted_answer : Body → Posted
posted_answer (link o e n) = if n == 9 then rejected (some 400) else accepted
posted_answer (participation o e g c) = rejected none

abbrev server : Server
server = record {
  Net = ℕ;
  clock = λ n. n;
  get_events = λ n. (none, n);
  get_all_sports = λ n. (some (judo ∷ []), n + 10);
  get_all_organizations = λ n. (none, n);
  get_event_sports = λ e n. (none, n);
  get_org_sports = λ e o n. (none, n);
  post = λ b n. (posted_answer b, n + 1);
}

abbrev start : World ℕ
start = record { net = 5; cache = []; bynumber_cache = []; posted = [] }

abbrev load : W server → Option (List SportEntry) × W server
load w = (some (judo ∷ []), record w { net = w.net + 10 })

abbrev fail : W server → Option (List SportEntry) × W server
fail w = (none, w)

abbrev sports_key : Text
sports_key = codes "all-sports"

start_misses : (get_cached sports_key 5 []).0 ≡ none
unfolding get_cached get
start_misses = refl

start_loads :
    load (record start { cache = (get_cached sports_key 5 []).1 })
    ≡ (some (judo ∷ []), record start { net = 15 })
unfolding get_cached get
start_loads = refl

abbrev event_sport : SportsEvent
event_sport = record {
  id = 1;
  event_name = none;
  sport_name = some (codes "judo");
  created_at = none;
}

abbrev survey : SurveyPayload
survey = record { organization_id = 4; event_id = 2; sport_ids = 3 ∷ 9 ∷ [] }

submit_survey-IsOutcome_example :
    let bodies = links server 4 2 (3 ∷ 9 ∷ []) in
    ((submit_survey server true survey start).1.posted ≡ logged bodies [])
    × IsOutcome server true (answers server bodies 5) start (submit_survey server true survey start)
submit_survey-IsOutcome_example = submit_survey-IsOutcome server true survey start

abbrev counts : ByNumberPayload
counts = record {
  organization_id = 4;
  event_id = 2;
  sports =
      record {
        sport_id = 3;
        athlete_male_count = 1;
        athlete_female_count = 2;
        leader_male_count = 0;
        leader_female_count = 1;
      }
      ∷ [];
}

run_refines_example :
    (run ((0, store sports_key (sports [])) ∷ (300001, lookup sports_key) ∷ []) 5 []).0
    ≡ replay ((0, store sports_key (sports [])) ∷ (300001, lookup sports_key) ∷ []) 5 (λ k. none)
run_refines_example =
    run_refines ((0, store sports_key (sports [])) ∷ (300001, lookup sports_key) ∷ []) 5

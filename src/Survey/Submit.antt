-- ===== src/Survey/Submit.antt =====
-- The two submissions: `submitSurvey` (survey/adapters/surveyHttpAdapter.ts) and `submitByNumber`
-- (bynumber/adapters/bynumberHttpAdapter.ts). All requests are started at once and each is awaited;
-- they stand here in the order in which they are started.
pub mod Laws
use choschmous_v.Base.{
  ℕ, Bool, true, false, ◌&&◌, none, some, List, [], ◌∷◌, ◌++◌, map, if◌then◌else◌, ◌==◌, nat_eq,
  Text, codes, text_eq,
}
use choschmous_v.Base.Assoc.{remove}
use choschmous_v.Base.Decimal.{show}
use choschmous_v.Survey.Schema.{
  SurveyPayload, SportCount, ByNumberPayload, Body, link, participation, Posted, accepted, rejected,
  Server,
}
use choschmous_v.Survey.Cache.{World, W}

-- A 400 means that the link is there already.
abbrev pub is_settled : Posted → Bool
is_settled accepted = true
is_settled (rejected none) = false
is_settled (rejected (some status)) = status == 400

unfoldable pub link_bodies : SurveyPayload → List Body
link_bodies p = map (λ sport_id. link p.organization_id p.event_id sport_id) p.sport_ids

unfoldable pub participation_bodies : ByNumberPayload → List Body
participation_bodies p =
    map (λ c. participation p.organization_id p.event_id p.organization_id c) p.sports

-- The key of the sports that an organization takes part in at an event.
unfoldable pub org_event_key : (organization_id event_id : ℕ) → Text
org_event_key organization_id event_id =
    codes "org-event-sports-" ++ show organization_id ++ 45 ∷ show event_id

module _ (s : Server) where
  abbrev pub post_one : Body → W s → Posted × W s
  post_one body w =
      ((s.post body w.net).0, record w { net = (s.post body w.net).1; posted = body ∷ w.posted })

  -- `Promise.all` of the requests: fulfilled if each is settled; none is held back by another.
  unfoldable pub post_all : List Body → W s → Bool × W s
  post_all [] w = (true, w)
  post_all (body ∷ bodies) w =
      let (answer, v) = post_one body w in
      let (rest, u) = post_all bodies v in (is_settled answer && rest, u)

  -- `clearCache` of both modules; that of the other module is imported, and a failure of the import is
  -- caught.
  abbrev pub clear_caches : (is_imported : Bool) → W s → W s
  clear_caches is_imported w = record w {
    cache = [];
    bynumber_cache = if is_imported then [] else w.bynumber_cache;
  }

  abbrev pub then_do : (W s → W s) → Bool × W s → Bool × W s
  then_do f (true, w) = (true, f w)
  then_do f (false, w) = (false, w)

  -- The caches are cleared once all requests are settled; a rejection leaves the function before that.
  unfoldable pub submit_survey : (is_imported : Bool) → SurveyPayload → W s → Bool × W s
  submit_survey is_imported p w = then_do (clear_caches is_imported) (post_all (link_bodies p) w)

  unfoldable pub submit_by_number : ByNumberPayload → W s → Bool × W s
  submit_by_number p w =
      then_do
        (λ v. record v {
          bynumber_cache = remove (org_event_key p.organization_id p.event_id) v.bynumber_cache;
        })
        (post_all (participation_bodies p) w)

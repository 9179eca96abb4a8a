-- ===== src/Api/Tests.antt =====
-- Calls of the client on concrete inputs.
use choschmous_v.Base.{
  ℕ, suc, ◌+◌, ◌≡◌, refl, ◌⊎◌, true, false, none, some, List, [], ◌∷◌, ◌==◌, nat_eq, Text, codes,
  text_eq, to_lower,
}
use choschmous_v.Base.Assoc.{get}
use choschmous_v.Api.Headers.{
  csrf_header_name, traceparent_header, correlation_id_header, get_header, attach_headers,
}
use choschmous_v.Api.Headers.Laws.{IsSent, attach_headers_lem}
use choschmous_v.Auth.Expiry.{absent, Store}
use choschmous_v.Auth.Mfa.{session}
use choschmous_v.Auth.State.{initial}
use choschmous_v.Api.World.{no_detail, http, Result, ok, err, Backend, World}
use choschmous_v.Api.Client.{is_auth_endpoint, perform_refresh, request}
use choschmous_v.Api.Client.Laws.{Trace, once, Settled, HasCause, first_attempt, request-Settled}
use choschmous_v.Api.SharedRefresh.{Event, call, settle, idle, run}
use choschmous_v.Api.SharedRefresh.Laws.{shared_refresh, outstanding, outcomes, fates}

-- A server that has forgotten the session: everything is answered 401.
abbrev server : Backend
server = record {
  Net = ℕ;
  clock = λ n. n;
  login = λ u p n. (ok (session absent), n);
  verify = λ t m c n. (ok absent, n);
  refresh = λ n. (err (http 401 [] no_detail), suc n);
  me = λ n. (err (http 401 [] no_detail), n);
  logout = λ n. (err (http 401 [] no_detail), n);
}

abbrev storage : Store
storage = record { reachable = true; readable = true; writable = true; item = none }

abbrev start : World ℕ
start = record { net = 0; sent = []; store = storage; auth = initial; cache = codes "events" ∷ [] }

abbrev events_url : Text
events_url = codes "/api/v1/events"

abbrev events_call : ℕ → Result ℕ × ℕ
events_call n = (err (http 401 [] no_detail), n)

request-Settled_example :
    (t : Trace) × Settled server start (request server events_url events_call start) events_url t
    × HasCause server events_url
        (first_attempt server events_url events_call start).0
        (perform_refresh server (first_attempt server events_url events_call start).1).0
        (request server events_url events_call start).0
        t
    × ((is_auth_endpoint events_url ≡ false) ⊎ (t ≡ once false))
request-Settled_example = request-Settled server events_url events_call start

abbrev schedule : List Event
schedule = call 1 ∷ call 2 ∷ settle true ∷ call 3 ∷ settle false ∷ []

shared_refresh_example :
    ((run idle schedule).posts
      ≡ (run idle schedule).replies + outstanding (run idle schedule).waiting)
    × (outcomes (run idle schedule) ≡ fates schedule)
shared_refresh_example = shared_refresh schedule

abbrev sixteen : List ℕ
sixteen = 1 ∷ 2 ∷ 3 ∷ 4 ∷ 5 ∷ 6 ∷ 7 ∷ 8 ∷ 9 ∷ 10 ∷ 11 ∷ 12 ∷ 13 ∷ 14 ∷ 15 ∷ 255 ∷ []

abbrev eight : List ℕ
eight = 1 ∷ 2 ∷ 3 ∷ 4 ∷ 5 ∷ 6 ∷ 7 ∷ 16 ∷ []

attach_headers_lem_example :
    let (r, trace) =
      attach_headers (some (codes "post")) (codes "c1") sixteen eight (some (codes "t")) [] in
    IsSent (some (codes "post")) (some (codes "t")) (get_header csrf_header_name r)
    × (get_header traceparent_header r ≡ some trace.traceparent)
    × (get_header correlation_id_header r ≡ some (codes "c1"))
    × ((name : Text)
        → (to_lower csrf_header_name == to_lower name) ≡ false
        → (to_lower traceparent_header == to_lower name) ≡ false
        → (to_lower correlation_id_header == to_lower name) ≡ false
        → get_header name r ≡ get_header name [])
unfolding get
attach_headers_lem_example =
    attach_headers_lem (some (codes "post")) (codes "c1") sixteen eight (some (codes "t")) [] refl

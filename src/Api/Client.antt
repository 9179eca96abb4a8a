-- ===== src/Api/Client.antt =====
-- The authenticated client's interceptors (core/api/client.ts), for one request at a time.
-- Axios hands the retried request's configuration on, its `_retry` mark included.
pub mod Laws
use choschmous_v.Base.{
  Bool, true, false, not, ◌&&◌, ◌||◌, none, some, [], ◌∷◌, if◌then◌else◌, ◌==◌, nat_eq, Text, codes,
  text_eq, starts_with, strip_prefix,
}
use choschmous_v.Auth.Expiry.{
  Reported, record_access_token_expiry, clear_access_token_expiry, is_access_token_expired,
}
use choschmous_v.Auth.State.{reducer, logout}
use choschmous_v.Api.World.{
  Failure, http, network, flat, flat_detail, required, plain, Result, ok, err, Backend, World, Exec,
  pure, raise, modify, try, ◌>>=◌, ◌>>◌,
}

auth_tail : Text → Bool
auth_tail s = elim (strip_prefix (codes "auth/") s) [
  | none ↦ false
  | some r ↦
      starts_with r (codes "login")
      || starts_with r (codes "refresh")
      || starts_with r (codes "logout")
]

-- The regular expression of `isAuthEndpoint` at the start of a text.
auth_here : Text → Bool
unfolding auth_tail
auth_here s = elim (strip_prefix (codes "/api/") s) [
  | none ↦ false
  | some r ↦
      auth_tail r || elim (strip_prefix (codes "v1/") r) [ none ↦ false | some q ↦ auth_tail q ]
]

unfoldable pub is_auth_endpoint : Text → Bool
unfolding auth_here
is_auth_endpoint [] = false
is_auth_endpoint (c ∷ s) = auth_here (c ∷ s) || is_auth_endpoint s

-- `error.response?.status !== 401`
abbrev pub is_unauthorized : Failure → Bool
is_unauthorized (http status m t) = status == 401
is_unauthorized _ = false

abbrev pub refresh_url : Text
refresh_url = codes "/api/v1/auth/refresh"

module _ (b : Backend) where
  abbrev pub W : Type 0
  W = World b.Net

  abbrev put_answer : {A : Type 0} → Result A × b.Net → W → Result A × W
  put_answer (r, net) w = (r, record w { net = net })

  -- One exchange on the wire.
  unfoldable pub exchange : {A : Type 0} → Text → (b.Net → Result A × b.Net) → Exec W A
  exchange url call w = put_answer (call w.net) (record w { sent = url ∷ w.sent })

  -- `performRefresh`, when no other refresh is in flight: the expiry hint follows the new token.
  unfoldable pub perform_refresh : Exec W (Unit {0})
  perform_refresh = do
    reported ← exchange refresh_url b.refresh
    modify (λ w. record w { store = record_access_token_expiry reported w.store })

  -- The request interceptor: a refresh ahead of a request whose token is due; its failure is ignored.
  unfoldable pub before_request : Text → Exec W (Unit {0})
  before_request url w =
      if not (is_auth_endpoint url) && is_access_token_expired (b.clock w.net) w.store
      then try perform_refresh pure (λ _. pure tt) w
      else (ok tt, w)

  -- The provider's handler of `auth:session-expired` (AuthContext.tsx).
  unfoldable pub session_expired : W → W
  session_expired w = record w {
    cache = [];
    store = clear_access_token_expiry w.store;
    auth = reducer w.auth logout;
  }

  -- The response interceptor's error handler; `again` sends the request once more. The handler does
  -- not await it, so that its failure is not caught here.
  unfoldable pub on_rejected : {A : Type 0} → Text → (retry : Bool) → Exec W A → Failure → Exec W A
  on_rejected url retry again e w =
      if not (is_unauthorized e) || retry || is_auth_endpoint url
      then (err e, w)
      else try perform_refresh (λ _. again)
          (λ _. do
            modify (λ v. record v { store = clear_access_token_expiry v.store })
            modify session_expired
            raise e)
          w

  unfoldable pub attempt :
      {A : Type 0} → (retry : Bool) → Exec W A → Text → (b.Net → Result A × b.Net) → Exec W A
  attempt retry again url call = do
    before_request url
    try (exchange url call) pure (on_rejected url retry again)

  -- A call of the client. The retried attempt is marked, so it is not retried in turn.
  unfoldable pub request : {A : Type 0} → Text → (b.Net → Result A × b.Net) → Exec W A
  request url call = attempt false (attempt true (raise (plain [])) url call) url call

-- ===== src/Auth/Flows.antt =====
-- The session's operations: the services (core/auth/services/index.ts, core/auth/mfa.ts) and the
-- provider's callbacks (core/auth/context/AuthContext.tsx), over the client of `Api.Client`. Each runs
-- from its call to its end; what the server answers in between is the backend's.
pub mod Triples
pub mod Legs
pub mod Laws
pub mod Histories
use choschmous_v.Base.{
  Bool, false, ◌||◌, none, some, [], if◌then◌else◌, ◌==◌, nat_eq, Text, codes, text_eq,
}
use choschmous_v.Auth.Role.{UserRole, normalize_role}
use choschmous_v.Auth.Expiry.{
  Reported, record_access_token_expiry, clear_access_token_expiry, is_access_token_expired,
}
use choschmous_v.Auth.Mfa.{MfaMethod, LoginBody, challenge, session, mfa_required}
use choschmous_v.Auth.State.{
  User, AuthState, Action, loading, set_user, set_error, clear_error, stop_loading, logout, reducer,
}
use choschmous_v.Api.World.{
  Failure, http, network, flat, flat_detail, required, plain, Result, ok, err, Backend, World, Exec,
  pure, raise, modify, try, ◌>>=◌, ◌>>◌,
}
use choschmous_v.Api.Client.{W, exchange, request, refresh_url}

abbrev pub login_url : Text
login_url = codes "/api/v1/auth/login"

abbrev pub me_url : Text
me_url = codes "/api/v1/auth/me"

abbrev pub logout_url : Text
logout_url = codes "/api/v1/auth/logout"

abbrev pub verify_url : Text
verify_url = codes "/api/v1/auth/mfa/verify"

-- `isAuthRejection`
unfoldable pub is_auth_rejection : Failure → Bool
is_auth_rejection (http status m t) = status == 401 || status == 403
is_auth_rejection (flat status) = status == 401 || status == 403
is_auth_rejection _ = false

-- `err instanceof Error ? err.message : fallback`
unfoldable pub message_or : Failure → Text → Text
message_or (http status m t) d = m
message_or (network m) d = m
message_or (plain m) d = m
message_or (required c) d = codes "Multi-factor authentication required"
message_or (flat status) d = d
message_or (flat_detail t) d = d

abbrev pub login_failed : Text
login_failed = codes "Login failed"

abbrev pub verification_failed : Text
verification_failed = codes "Verification failed"

-- The legacy alias `org_id` mirrors `organization_id`.
unfoldable pub with_org_id : User → User
with_org_id u = record u { org_id = elim u.organization_id [ some o ↦ some o | none ↦ u.org_id ] }

module _ (b : Backend) where
  abbrev pub dispatch : Action → Exec (W b) (Unit {0})
  dispatch a = modify (λ w. record w { auth = reducer w.auth a })

  abbrev pub store_expiry : Reported → Exec (W b) (Unit {0})
  store_expiry r = modify (λ w. record w { store = record_access_token_expiry r w.store })

  abbrev pub clear_expiry : Exec (W b) (Unit {0})
  clear_expiry = modify (λ w. record w { store = clear_access_token_expiry w.store })

  abbrev pub clear_cache : Exec (W b) (Unit {0})
  clear_cache = modify (λ w. record w { cache = [] })

  abbrev pub accept_login : LoginBody → Exec (W b) (Unit {0})
  accept_login (challenge c) = raise (required (mfa_required c))
  accept_login (session r) = store_expiry r

  unfoldable pub login_user : (username password : Text) → Exec (W b) (Unit {0})
  login_user username password = do
    body ← request b login_url (b.login username password)
    accept_login body

  unfoldable pub verify_mfa_login : Text → MfaMethod → Text → Exec (W b) (Unit {0})
  verify_mfa_login token method code = do
    expires ← request b verify_url (b.verify token method code)
    store_expiry expires

  unfoldable pub refresh_access_token : Exec (W b) (Unit {0})
  refresh_access_token = do expires ← request b refresh_url b.refresh; store_expiry expires

  unfoldable pub get_current_user : Exec (W b) User
  get_current_user = do u ← request b me_url b.me; pure (with_org_id u)

  -- The unauthenticated client has no refresh; its rejections are caught by `logout`.
  unfoldable pub logout_user : Exec (W b) (Unit {0})
  logout_user = exchange b logout_url b.logout

  -- "Who am I?", and the session set up from the answer.
  unfoldable pub sign_in : Exec (W b) UserRole
  sign_in = do
    u ← get_current_user
    dispatch (set_user u (normalize_role u.role))
    pure (normalize_role u.role)

  abbrev pub login_rejected : Failure → Exec (W b) UserRole
  login_rejected (required m) = do dispatch stop_loading; raise (required m)
  login_rejected e = do dispatch (set_error (message_or e login_failed)); raise e

  unfoldable pub login : (username password : Text) → Exec (W b) UserRole
  login username password = do
    dispatch loading
    try (do login_user username password; sign_in) pure login_rejected

  unfoldable pub complete_mfa : Text → MfaMethod → Text → Exec (W b) UserRole
  complete_mfa token method code = do
    dispatch loading
    try (do verify_mfa_login token method code; sign_in) pure
        (λ e. do dispatch (set_error (message_or e verification_failed)); raise e)

  unfoldable pub sign_out : Exec (W b) (Unit {0})
  sign_out = do try logout_user pure (λ _. pure tt); clear_cache; clear_expiry; dispatch logout

  abbrev pub refresh_rejected : Failure → Exec (W b) (Unit {0})
  refresh_rejected e w =
      if is_auth_rejection e
      then (do clear_cache; clear_expiry; dispatch logout; raise e) w
      else (err e, w)

  unfoldable pub refresh_session : Exec (W b) (Unit {0})
  refresh_session = try (do refresh_access_token; sign_in) (λ _. pure tt) refresh_rejected

  abbrev pub refresh_if_due : Exec (W b) (Unit {0})
  refresh_if_due w =
      if is_access_token_expired (b.clock w.net) w.store then refresh_access_token w else (ok tt, w)

  -- The effect that runs once, when the provider is mounted.
  unfoldable pub restore : Exec (W b) (Unit {0})
  restore = try (do refresh_if_due; sign_in) (λ _. pure tt) (λ _. do clear_expiry; dispatch logout)

-- ===== src/Auth/Tests.antt =====
-- The session against a server that names one user, and the permission maps, on concrete inputs.
use choschmous_v.Base.{
  ℕ, zero, suc, ◌≡◌, refl, ◌⊎◌, true, false, none, some, List, [], ◌∷◌, arith, nat_eq, codes,
  text_eq,
}
use choschmous_v.Auth.Role.{UserRole, admin, normalize_role}
use choschmous_v.Auth.Expiry.{finite, number, Store, is_access_token_expired}
use choschmous_v.Auth.Mfa.{totp, session}
use choschmous_v.Auth.State.{User, Action, loading, set_user, logout, initial, empty}
use choschmous_v.Auth.Mfa.{MfaRequired}
use choschmous_v.Api.World.{no_detail, http, Result, ok, err, Backend, World}
use choschmous_v.Auth.Flows.{with_org_id, login, restore, login_failed}
use choschmous_v.Auth.Flows.Legs.{IsSignedIn}
use choschmous_v.Auth.Flows.Laws.{IsSettled, LoginEnd, login-LoginEnd, restore_fails_closed}
use choschmous_v.Auth.Flows.Histories.{log_in, refresh, log_out, run_all, session_integrity}

abbrev sokha : User
sokha = record {
  id = codes "1";
  username = codes "sokha";
  email = codes "s@x";
  kh_family_name = none;
  kh_given_name = none;
  en_family_name = none;
  en_given_name = none;
  khmer_name = none;
  english_name = none;
  role = codes "admin";
  is_active = true;
  is_superuser = false;
  photo_path = none;
  org_id = none;
  organization_id = some 4;
  sport_id = none;
  created_at = [];
  updated_at = [];
}

-- Its state counts the refreshes: before the first one, `/me` answers 401.
abbrev me_answer : ℕ → Result User
me_answer zero = err (http 401 (codes "expired") no_detail)
me_answer (suc n) = ok sokha

abbrev server : Backend
server = record {
  Net = ℕ;
  clock = λ n. 100000;
  login = λ u p n. (ok (session (finite 900000)), n);
  verify = λ t m c n. (ok (finite 900000), n);
  refresh = λ n. (ok (finite 900000), suc n);
  me = λ n. (me_answer n, n);
  logout = λ n. (err (http 500 [] no_detail), n);
}

abbrev IsSokha : User → Type 0
IsSokha u = u.username ≡ codes "sokha"

named : (n : ℕ) (u : User) → me_answer n ≡ ok u → IsSokha (with_org_id u)
unfolding with_org_id
named zero u h = absurd (cc h)
named (suc n) u h = ground arith

abbrev storage : Store
storage = record { reachable = true; readable = true; writable = true; item = some (number 160000) }

abbrev mounted : World ℕ
mounted = record {
  net = 0;
  sent = [];
  store = storage;
  auth = initial;
  cache = codes "events" ∷ [];
}

abbrev settled : World ℕ
settled = record mounted { auth = empty }

session_integrity_example :
    IsSettled IsSokha
      (run_all server
        (restore server mounted).1
        (refresh ∷ log_out ∷ log_in (codes "sokha") (codes "pw") ∷ [])).auth
session_integrity_example =
    session_integrity server IsSokha named mounted
      (refresh ∷ log_out ∷ log_in (codes "sokha") (codes "pw") ∷ []) refl

login-LoginEnd_example :
    LoginEnd IsSokha login_failed
      (login server (codes "sokha") (codes "pw") mounted).0
      (login server (codes "sokha") (codes "pw") mounted).1.auth
login-LoginEnd_example =
    login-LoginEnd server IsSokha named mounted (codes "sokha") (codes "pw") (tt, tt)

restore_fails_closed_example :
    ((restore server mounted).1.auth ≡ empty)
    ⊎ ((r : UserRole) × IsSignedIn IsSokha r (restore server mounted).1.auth)
restore_fails_closed_example = restore_fails_closed server IsSokha named mounted (tt, tt)

abbrev actions : List Action
actions = loading ∷ set_user sokha admin ∷ logout ∷ []

sokha_role : admin ≡ normalize_role sokha.role
unfolding normalize_role
sokha_role = refl

expired : is_access_token_expired 100000 storage ≡ true
unfolding is_access_token_expired
expired = refl

abbrev demanded : MfaRequired
demanded = record { token = codes "t"; methods = totp ∷ []; enrollment_required = false }

-- ===== src/Auth/Access.antt =====
-- The permission maps: `FEATURE_ACCESS` of core/auth/types/index.ts and `CAPABILITY_ROLES` of
-- core/auth/usePermissions.ts, with the tests that read them.
pub mod Laws
use choschmous_v.Base.{
  Bool, false, not, ◌&&◌, Option, none, some, List, [], ◌∷◌, if◌then◌else◌, nat_eq, includes,
  text_eq,
}
use choschmous_v.Auth.Role.{UserRole, super_admin, admin, organization, federation, role_eq}

pub data FeatureKey : Type 0 where
  dashboard events sports organizations bycategory users bysport bynumber opensurvey : FeatureKey
  register leaderregistration registrations participation reports cards : FeatureKey
  organizerregistration organizerroles sportsubmissions categorysubmissions import : FeatureKey

unfoldable pub feature_access : FeatureKey → List UserRole
feature_access dashboard = super_admin ∷ admin ∷ organization ∷ federation ∷ []
feature_access events = super_admin ∷ admin ∷ organization ∷ federation ∷ []
feature_access sports = super_admin ∷ admin ∷ federation ∷ []
feature_access organizations = super_admin ∷ admin ∷ []
feature_access users = super_admin ∷ []
feature_access bycategory = super_admin ∷ admin ∷ federation ∷ []
feature_access bysport = super_admin ∷ admin ∷ organization ∷ []
feature_access bynumber = super_admin ∷ admin ∷ organization ∷ []
feature_access opensurvey = super_admin ∷ admin ∷ organization ∷ []
feature_access register = super_admin ∷ admin ∷ organization ∷ []
feature_access leaderregistration = super_admin ∷ admin ∷ organization ∷ []
feature_access registrations = super_admin ∷ admin ∷ organization ∷ []
feature_access participation = super_admin ∷ admin ∷ organization ∷ []
feature_access reports = super_admin ∷ admin ∷ organization ∷ []
feature_access cards = super_admin ∷ admin ∷ organization ∷ []
feature_access organizerregistration = super_admin ∷ admin ∷ organization ∷ []
feature_access organizerroles = super_admin ∷ admin ∷ []
feature_access sportsubmissions = super_admin ∷ admin ∷ []
feature_access categorysubmissions = super_admin ∷ admin ∷ []
feature_access import = super_admin ∷ admin ∷ organization ∷ []

pub data Capability : Type 0 where
  cross_org_admin reveal_pii : Capability

unfoldable pub capability_roles : Capability → List UserRole
capability_roles cross_org_admin = super_admin ∷ admin ∷ []
capability_roles reveal_pii = super_admin ∷ admin ∷ []

-- `hasRole` and `canAccess`: nobody is signed in while the role is `null`.
unfoldable pub has_role : Option UserRole → List UserRole → Bool
has_role none required = false
has_role (some r) required = includes required r

-- `can` of `usePermissions`.
unfoldable pub can : Option UserRole → Capability → Bool
can none c = false
can (some r) c = includes (capability_roles c) r

-- What a route guard does with a visitor (useRequireRole.ts).
pub data Route : Type 0 where
  wait stay to_login to_unauthorized : Route

unfoldable pub require_role :
    (is_loading is_authenticated : Bool) → Option UserRole → List UserRole → Route
unfolding has_role
require_role is_loading is_authenticated role required =
    if is_loading
    then wait
    else if not is_authenticated
    then to_login
    else if not (has_role role required)
    then to_unauthorized
    else stay

-- useRequireAuth.ts
unfoldable pub require_auth : (is_loading is_authenticated : Bool) → Route
require_auth is_loading is_authenticated =
    if not is_loading && not is_authenticated then to_login else if is_loading then wait else stay

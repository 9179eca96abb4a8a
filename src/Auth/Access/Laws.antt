-- ===== src/Auth/Access/Laws.antt =====
-- Who may do what, by the permission maps.
use choschmous_v.Base.{
  ◌≡◌, refl, ◌↔◌, ◌⊎◌, inr, Bool, true, false, Option, none, some, List, arith, nat_eq, text_eq,
}
use choschmous_v.Auth.Role.{UserRole, super_admin, admin, guest, role_beq_iff, role_eq}
use choschmous_v.Auth.Access.{
  FeatureKey, dashboard, users, feature_access, Capability, cross_org_admin, reveal_pii,
  capability_roles, has_role, can, stay, to_login, require_role,
}

-- The super administrator reaches every feature, the guest none; only the super administrator
-- manages users; and whoever may open a feature may do so as an administrator too, except for users.
pub feature_access_matrix :
    (f : FeatureKey)
    → (has_role (some super_admin) (feature_access f) ≡ true)
      × (has_role (some guest) (feature_access f) ≡ false)
      × ((has_role (some admin) (feature_access f) ≡ true) ⊎ (f ≡ users))
unfolding feature_access has_role
feature_access_matrix users = (refl, refl, inr refl)
feature_access_matrix dashboard = ground arith
feature_access_matrix _ = ground arith

-- A capability is held by the two administrator roles exactly, and by nobody who is not signed in.
pub can_iff :
    (role : Option UserRole) (c : Capability)
    → (can role c ≡ true) ↔ ((role ≡ some super_admin) ⊎ (role ≡ some admin))
unfolding can capability_roles
can_iff none c = ground arith
can_iff (some r) cross_org_admin = ground (arith, role_beq_iff super_admin r, role_beq_iff admin r)
can_iff (some r) reveal_pii = ground (arith, role_beq_iff super_admin r, role_beq_iff admin r)

-- A guarded page stays open exactly to a visitor whose session is settled and confirmed and whose
-- role is listed; a settled visitor with no session is sent to the login page.
pub require_role_iff :
    (loading signed_in : Bool) (role : Option UserRole) (required : List UserRole)
    → ((require_role loading signed_in role required ≡ stay)
        ↔ ((loading ≡ false) × (signed_in ≡ true) × (has_role role required ≡ true)))
      × ((require_role loading signed_in role required ≡ to_login)
          ↔ ((loading ≡ false) × (signed_in ≡ false)))
unfolding require_role
require_role_iff loading signed_in role required = ground arith

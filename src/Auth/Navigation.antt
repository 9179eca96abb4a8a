-- ===== src/Auth/Navigation.antt =====
-- Where a signed-in user is led: the links of the menu (modules/common/components/Sidebar.tsx), the
-- page after the login (core/config/constants.ts), and the guards of the pages (app/(portal)).
pub mod Laws
mod Tests
use choschmous_v.Base.{
  true, false, Option, none, some, List, [], ◌∷◌, ltb, if◌then◌else◌, nat_eq, length, filter,
  includes, Text, codes, text_eq,
}
use choschmous_v.Base.Assoc.{get}
use choschmous_v.Auth.Role.{UserRole, super_admin, admin, organization, federation, guest, role_eq}
use choschmous_v.Auth.Access.{
  FeatureKey, dashboard, events, sports, organizations, bycategory, users, bysport, bynumber,
  opensurvey, register, leaderregistration, registrations, participation, reports, cards,
  organizerregistration, organizerroles, sportsubmissions, categorysubmissions, import,
  feature_access, has_role, Route, wait, stay, to_login, to_unauthorized, require_role,
}

-- An item of the menu: the path of its page, and the feature that it belongs to.
abbrev pub MenuItem : Type 0
MenuItem = Text × FeatureKey

unfoldable pub menu_sections : List (List MenuItem)
menu_sections =
    ((codes "/dashboard", dashboard) ∷ [])
    ∷ ((codes "/events", events)
        ∷ (codes "/sports", sports)
        ∷ (codes "/organizations", organizations)
        ∷ (codes "/by-category", bycategory)
        ∷ (codes "/users", users)
        ∷ [])
    ∷ ((codes "/by-sport", bysport)
        ∷ (codes "/by-number", bynumber)
        ∷ (codes "/open-survey", opensurvey)
        ∷ (codes "/register", register)
        ∷ (codes "/leader-registration", leaderregistration)
        ∷ (codes "/import", import)
        ∷ [])
    ∷ ((codes "/participation", participation)
        ∷ (codes "/sport-submissions", sportsubmissions)
        ∷ (codes "/category-submissions", categorysubmissions)
        ∷ [])
    ∷ ((codes "/organizer-registration", organizerregistration)
        ∷ (codes "/organizer-roles", organizerroles)
        ∷ (codes "/registrations", registrations)
        ∷ (codes "/reports", reports)
        ∷ [])
    ∷ []

abbrev pub sections_for : UserRole → List (List MenuItem) → List (List MenuItem)
sections_for r [] = []
sections_for r (items ∷ sections) =
    let shown = filter (λ i. includes (feature_access i.1) r) items in
    let rest = sections_for r sections in if ltb 0 (length shown) then shown ∷ rest else rest

-- The menu that a role sees.
unfoldable pub visible_sections : Option UserRole → List (List MenuItem)
unfolding menu_sections feature_access
visible_sections none = []
visible_sections (some r) = sections_for r menu_sections

-- What `useRequireRole` asks for on each page: `none` where the page does not call it.
unfoldable pub page_guards : List (Text × Option FeatureKey)
page_guards =
    (codes "/by-category", some bycategory)
    ∷ (codes "/by-number", some bynumber)
    ∷ (codes "/by-sport", some bysport)
    ∷ (codes "/cards", some cards)
    ∷ (codes "/category-submissions", some categorysubmissions)
    ∷ (codes "/dashboard", some dashboard)
    ∷ (codes "/events", some events)
    ∷ (codes "/import", some import)
    ∷ (codes "/leader-registration", some leaderregistration)
    ∷ (codes "/open-survey", some opensurvey)
    ∷ (codes "/organizations", some organizations)
    ∷ (codes "/organizer-registration", some organizerregistration)
    ∷ (codes "/organizer-roles", some organizerroles)
    ∷ (codes "/participation", some participation)
    ∷ (codes "/register", some register)
    ∷ (codes "/registrations", some registrations)
    ∷ (codes "/reports", some reports)
    ∷ (codes "/sport-submissions", some sportsubmissions)
    ∷ (codes "/sports", some sports)
    ∷ (codes "/users", none)
    ∷ []

-- `PORTAL_ROLES`, which the shell around every page asks for.
abbrev pub portal_roles : List UserRole
portal_roles = super_admin ∷ admin ∷ organization ∷ federation ∷ []

abbrev pub guarded : Option UserRole → Option (Option FeatureKey) → Option Route
guarded role none = none
guarded role (some none) = some stay
guarded role (some (some f)) = some (require_role false true role (feature_access f))

-- What becomes of a visit of a signed-in user to a page of the menu: the shell's guard, and the page's;
-- `none` is a page that there is not.
abbrev pub behind_shell : Route → Option Route → Option Route
behind_shell stay inner = inner
behind_shell r inner = some r

unfoldable pub visit : Option UserRole → Text → Option Route
unfolding page_guards require_role
visit role path =
    behind_shell (require_role false true role portal_roles) (guarded role (get path page_guards))

-- `ROLE_DEFAULT_ROUTE`
unfoldable pub role_default_route : UserRole → Text
role_default_route super_admin = codes "/dashboard"
role_default_route admin = codes "/dashboard"
role_default_route organization = codes "/dashboard"
role_default_route federation = codes "/by-category"
role_default_route guest = codes "/register"
